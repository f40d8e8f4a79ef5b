-- ===== src/Protocol/Framing/RoundTrip.antt =====
-- crossbridge-protocol/src/framing.rs: what the reader makes of what the writer wrote.
use native.Mathlib.Nat.{mod-eq_of_lt}
use crossbridge.Prelude.{
  ℕ, ◌^◌, ◌≤◌, ◌<◌, ◌≡◌, refl, ap, List, [], ◌∷◌, ◌++◌, length, append_assoc, append-nil, sym, zero,
  suc, length-append, take-append, drop-append, ok, err, Result-cases, arith, inl, inr,
}
use crossbridge.Prelude.Action.{Action, pure, ◌>>=◌, ◌>>◌}
use crossbridge.Protocol.{Error, max_frame_size}
use crossbridge.Protocol.Framing.{
  Bytes, Codec, Read, Write, vec_write, slice_read, slice_read_exact, to_be_bytes, from_be_bytes,
  encode, check_incoming_len, write_message_sync, read_message_sync, write_message, read_message,
}

-- What the program relies on of postcard: decoding inverts encoding.
pub record IsFaithful {T : Type 0} (codec : Codec T) : Type 0 where
  pub decodes :
      (msg : T) (payload : Bytes)
      → codec.to_stdvec msg ≡ ok payload
      → codec.from_bytes payload ≡ ok msg

pub from_be_bytes-to_be_bytes : (n : ℕ) → n < 2 ^ 32 → from_be_bytes (to_be_bytes n) ≡ n
unfolding from_be_bytes to_be_bytes
from_be_bytes-to_be_bytes n h = omega arith

pub slice_read_exact-append :
    (s rest : Bytes) → slice_read_exact (length s) (s ++ rest) ≡ (ok s, rest)
unfolding slice_read_exact
slice_read_exact-append s rest =
    ground (arith, length-append s rest, take-append s rest, drop-append s rest)

pub read_header :
    (n : ℕ) (rest : Bytes) → slice_read_exact 4 (to_be_bytes n ++ rest) ≡ (ok (to_be_bytes n), rest)
unfolding to_be_bytes
read_header n rest = slice_read_exact-append (to_be_bytes n) rest

pub check_incoming_len_small : (n : ℕ) → n ≤ max_frame_size → check_incoming_len n ≡ ok tt
unfolding check_incoming_len
check_incoming_len_small n h = ground arith

pub encode-le-max :
    {T : Type 0} (codec : Codec T) (msg : T) (payload : Bytes)
    → encode codec msg ≡ ok payload
    → (codec.to_stdvec msg ≡ ok payload) × (length payload ≤ max_frame_size)
unfolding encode
encode-le-max codec msg payload e = ground arith

-- A frame: the header of a payload and the payload.
abbrev pub frame : Bytes → Bytes
frame payload = to_be_bytes (length payload) ++ payload

module _ {T : Type 0} (codec : Codec T) where
  pub write_message_frame :
      (msg : T) (out payload : Bytes)
      → encode codec msg ≡ ok payload
      → write_message_sync vec_write codec msg out ≡ (ok tt, out ++ frame payload)
  unfolding write_message_sync
  write_message_frame msg out payload e =
      let small : length payload < 2 ^ 32 = omega (arith, (encode-le-max codec msg payload e).1) in
      rw (e, mod-eq_of_lt small)
        (ap (λ (w : Bytes). (ok tt, w)) (append_assoc out (to_be_bytes (length payload)) payload))

  pub read_message_frame :
      (faithful : IsFaithful codec) (msg : T) (rest payload : Bytes)
      → encode codec msg ≡ ok payload
      → read_message_sync slice_read codec (frame payload ++ rest) ≡ (ok msg, rest)
  unfolding read_message_sync
  read_message_frame faithful msg rest payload e =
      let (stored, small) = encode-le-max codec msg payload e in
      rw (
        append_assoc (to_be_bytes (length payload)) payload rest,
        read_header (length payload) (payload ++ rest),
        from_be_bytes-to_be_bytes (length payload) (omega (arith, small)),
        check_incoming_len_small (length payload) small,
        slice_read_exact-append payload rest,
        faithful.decodes msg payload stored,
      )

  pub write_message_refused :
      (msg : T) (out : Bytes) (e : Error)
      → encode codec msg ≡ err e
      → write_message_sync vec_write codec msg out ≡ (err e, out)
  unfolding write_message_sync
  write_message_refused msg out e h = rw h

  -- Several messages on one stream.
  unfoldable pub send : List T → Action Bytes Error Unit
  send [] = pure tt
  send (msg ∷ msgs) = do write_message_sync vec_write codec msg; send msgs

  unfoldable pub receive : ℕ → Action Bytes Error (List T)
  receive zero = pure []
  receive (suc n) = do msg ← read_message_sync slice_read codec; msgs ← receive n; pure (msg ∷ msgs)

  send_frames :
      (faithful : IsFaithful codec) (msgs : List T) (out : Bytes)
      → (send msgs out).0 ≡ ok tt
      → (sent : Bytes) × (send msgs out ≡ (ok tt, out ++ sent))
        × ((rest : Bytes) → receive (length msgs) (sent ++ rest) ≡ (ok msgs, rest))
  unfolding send receive
  send_frames faithful [] out h =
      ([], ap (λ (w : Bytes). (ok tt, w)) (sym (append-nil out)), λ rest. refl)
  send_frames faithful (msg ∷ msgs) out h = elim (Result-cases (encode codec msg)) [
    | inr (e, refused) ↦ absurd (ground (arith, write_message_refused msg out e refused))
    | inl (payload, e) ↦
        let step = write_message_frame msg out payload e in
        let (sent, sends, reads) =
          send_frames faithful msgs (out ++ frame payload) (rw step at h) in
        (
          frame payload ++ sent,
          rw (step, sends) (ap (λ (w : Bytes). (ok tt, w)) (append_assoc out (frame payload) sent)),
          λ rest. rw (
            append_assoc (frame payload) sent rest,
            read_message_frame faithful msg (sent ++ rest) payload e,
            reads rest,
          ),
        )
  ]

  -- With a faithful codec: messages that were written back to back without an error are read
  -- back in the same order, and the reader stops exactly where the last frame ends.
  pub receive-send :
      (faithful : IsFaithful codec) (msgs : List T) (rest : Bytes)
      → (send msgs []).0 ≡ ok tt
      → receive (length msgs) ((send msgs []).1 ++ rest) ≡ (ok msgs, rest)
  receive-send faithful msgs rest h =
      let (sent, sends, reads) = send_frames faithful msgs [] h in rw sends (reads rest)

module _ {W R T : Type 0} (w : Write W) (r : Read R) (codec : Codec T) where
  -- The asynchronous functions and the blocking ones are the same function of the stream.
  pub sync_async_agree :
      ((msg : T) (out : W) → write_message w codec msg out ≡ write_message_sync w codec msg out)
      × ((input : R) → read_message r codec input ≡ read_message_sync r codec input)
  unfolding write_message write_message_sync read_message read_message_sync
  sync_async_agree = (λ msg out. refl, λ input. refl)
