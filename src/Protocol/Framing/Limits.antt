-- ===== src/Protocol/Framing/Limits.antt =====
-- crossbridge-protocol/src/framing.rs: the bound on a frame, and input that is cut short.
use crossbridge.Prelude.{
  ℕ, ◌^◌, ◌≤◌, ◌<◌, ◌≡◌, ◌++◌, length, take, length-take-le, zero, suc, [], Result-cases, inl, inr,
  ok, err, arith, Result, sym, ap, ◌∙◌, append_assoc, length-append, take-append_within,
  take-append_beyond, refl, ◌+◌, Bool-cases, ltb, ltb→lt, ◌⊎◌,
}
use native.Mathlib.Nat.{mod-eq_of_lt}
use crossbridge.Prelude.Text.{Text}
use crossbridge.Protocol.{Error, IoError, io, postcard, frame_too_large, max_frame_size}
use crossbridge.Protocol.Framing.{
  Bytes, Codec, Write, eof, slice_read, slice_read_exact, to_be_bytes, encode, check_incoming_len,
  write_message_sync, read_message_sync,
}
use crossbridge.Protocol.Framing.RoundTrip.{
  frame, read_header, from_be_bytes-to_be_bytes, check_incoming_len_small, encode-le-max,
}

module _ {T : Type 0} (codec : Codec T) where
  -- A header that announces more than the limit is refused before the payload is read.
  pub read_too_large :
      (n : ℕ) (rest : Bytes)
      → max_frame_size < n
      → n < 2 ^ 32
      → read_message_sync slice_read codec (to_be_bytes n ++ rest)
        ≡ (err (frame_too_large n max_frame_size), rest)
  unfolding read_message_sync
  read_too_large n rest h small =
      rw (read_header n rest, from_be_bytes-to_be_bytes n small)
        (unfold check_incoming_len in ground arith)

  short_read : (n : ℕ) (s : Bytes) → length s < n → slice_read_exact n s ≡ (err eof, [])
  unfolding slice_read_exact
  short_read n s h = ground arith

  short_header :
      (s : Bytes) → length s < 4 → (read_message_sync slice_read codec s).0 ≡ err (io eof)
  unfolding read_message_sync
  short_header s h = rw (short_read 4 s h)

  short_payload :
      (payload : Bytes) (k : ℕ)
      → length payload ≤ max_frame_size
      → k < length payload
      → (read_message_sync slice_read codec (to_be_bytes (length payload) ++ take k payload)).0
        ≡ err (io eof)
  unfolding read_message_sync
  short_payload payload k small h = rw (
    read_header (length payload) (take k payload),
    from_be_bytes-to_be_bytes (length payload) (omega (arith, small)),
    check_incoming_len_small (length payload) small,
    short_read (length payload) (take k payload) (omega (arith, length-take-le k payload)),
  )

  -- Every strict prefix of a frame is an end-of-file error: no message is made up of part of one.
  pub read_truncated :
      (payload : Bytes) (n : ℕ)
      → length payload ≤ max_frame_size
      → n < length (frame payload)
      → (read_message_sync slice_read codec (take n (frame payload))).0 ≡ err (io eof)
  unfolding to_be_bytes
  read_truncated payload zero small h = short_header [] (omega arith)
  read_truncated payload (suc zero) small h = short_header _ (omega arith)
  read_truncated payload (suc (suc zero)) small h = short_header _ (omega arith)
  read_truncated payload (suc (suc (suc zero))) small h = short_header _ (omega arith)
  read_truncated payload (suc (suc (suc (suc k)))) small h =
      short_payload payload k small (omega arith)

-- A writer that keeps its promises: `sent` is what has gone out, and a write that fails has sent
-- some of its bytes, from the front, and not all of them.
pub record IsWriter {W : Type 0} (w : Write W) (sent : W → Bytes) : Type 0 where
  pub whole : (b : Bytes) (s s' : W) → w.write_all b s ≡ (ok tt, s') → sent s' ≡ sent s ++ b
  pub partial_write :
      (b : Bytes) (s s' : W) (e : IoError)
      → w.write_all b s ≡ (err e, s')
      → (n : ℕ) × (n < length b) × (sent s' ≡ sent s ++ take n b)

module _ {W T : Type 0} (w : Write W) (sent : W → Bytes) (law : IsWriter w sent)
    (codec : Codec T) where
  -- What goes out of a frame: all of it, or by an error of the writer only a part, from the front.
  unfoldable pub GoesOut : Bytes → W → Result Error Unit × W → Type 0
  GoesOut payload s (r, s') =
      ((r ≡ ok tt) × (sent s' ≡ sent s ++ frame payload))
      ⊎ ((e : IoError) × (n : ℕ) × (r ≡ err (io e))
          × (n < length (frame payload))
          × (sent s' ≡ sent s ++ take n (frame payload)))

  write_frame :
      (msg : T) (payload : Bytes) (s : W)
      → encode codec msg ≡ ok payload
      → GoesOut payload s (write_message_sync w codec msg s)
  unfolding write_message_sync GoesOut
  write_frame msg payload s fits =
      let header : Bytes = to_be_bytes (length payload) in
      let small : length payload < 2 ^ 32 =
        omega (arith, (encode-le-max codec msg payload fits).1) in
      let (r1, s1) = w.write_all header s in
      rw (fits, mod-eq_of_lt small)
        (elim (Result-cases (w.write_all header s).0) [
          | inr (e, bad) ↦
              let (n, short, cut) = law.partial_write header s s1 e (ap (λ r. (r, s1)) bad) in
              rw bad (
                inr (
                  e,
                  n,
                  refl,
                  omega (arith, short, length-append header payload),
                  cut
                      ∙ ap (λ b. sent s ++ b)
                          (sym (take-append_within n header payload (omega arith))),
                ))
          | inl (u, good) ↦
              let (r2, s2) = w.write_all payload s1 in
              let first = law.whole header s s1 (ap (λ r. (r, s1)) good) in
              rw good (elim (Result-cases (w.write_all payload s1).0) [
                | inl (v, good') ↦ rw good' (
                    inl (
                      refl,
                      law.whole payload s1 s2 (ap (λ r. (r, s2)) good')
                          ∙ ap (λ b. b ++ payload) first
                          ∙ append_assoc (sent s) header payload,
                    ))
                | inr (e, bad) ↦
                    let (n, short, cut) =
                      law.partial_write payload s1 s2 e (ap (λ r. (r, s2)) bad) in
                    rw bad (
                      inr (
                        e,
                        length header + n,
                        refl,
                        omega (arith, short, length-append header payload),
                        cut
                            ∙ ap (λ b. b ++ take n payload) first
                            ∙ append_assoc (sent s) header (take n payload)
                            ∙ ap (λ b. sent s ++ b) (sym (take-append_beyond n header payload)),
                      ))
              ])
        ])

  refused_untouched :
      (msg : T) (s : W) (e : Error)
      → encode codec msg ≡ err e
      → write_message_sync w codec msg s ≡ (err e, s)
  unfolding write_message_sync
  refused_untouched msg s e h = rw h refl

  -- Over any writer that keeps its promises: a message that can be encoded in no more than the limit
  -- goes out as one frame, or the writer fails and only a part of the frame, from the front, has
  -- gone out; otherwise nothing is written, and the error says whether encoding failed or how long
  -- the payload would be.
  pub write_message_sync_lem :
      (msg : T) (s : W)
      → let written = write_message_sync w codec msg s in
        ((payload : Bytes) × (codec.to_stdvec msg ≡ ok payload)
          × (length payload ≤ max_frame_size)
          × GoesOut payload s written)
        ⊎ ((payload : Bytes) × (codec.to_stdvec msg ≡ ok payload)
            × (max_frame_size < length payload)
            × (written ≡ (err (frame_too_large (length payload) max_frame_size), s)))
        ⊎ ((e : Text) × (codec.to_stdvec msg ≡ err e) × (written ≡ (err (postcard e), s)))
  unfolding encode
  write_message_sync_lem msg s = elim (Result-cases (codec.to_stdvec msg)) [
    | inr (e, bad) ↦ inr (inr (e, bad, refused_untouched msg s (postcard e) (ground (arith, bad))))
    | inl (payload, e) ↦ elim (Bool-cases (ltb max_frame_size (length payload))) [
      | inl large ↦ inr (
          inl (
            payload,
            e,
            ltb→lt max_frame_size (length payload) large,
            refused_untouched msg s (frame_too_large (length payload) max_frame_size)
                (ground (arith, e, large)),
          ))
      | inr fits ↦
          inl
            (payload, e, ground (arith, fits), write_frame msg payload s (ground (arith, e, fits)))
    ]
  ]
