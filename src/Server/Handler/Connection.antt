-- ===== src/Server/Handler/Connection.antt =====
-- crossbridge-server/src/handler.rs, handle_connection, on a stream of bytes in each direction.
use crossbridge.Prelude.{List, [], ◌++◌, ◌≡◌, refl, subst, ◌∙◌, Result, ok, err, arith, append-nil}
use crossbridge.Prelude.Text.{Text, codes}
use crossbridge.Prelude.Decimal.{ℤ}
use crossbridge.Protocol.{Attachment, ClientRequest, ServerResponse, failed, Error, display_error}
use crossbridge.Protocol.Framing.{
  Bytes, Codec, Read, Write, vec_write, slice_read, slice_read_exact, encode, read_message,
  write_message, read_message_sync, write_message_sync,
}
use crossbridge.Protocol.Framing.RoundTrip.{
  IsFaithful, frame, read_message_frame, write_message_frame,
}
use crossbridge.Crosslink.{Database}
use crossbridge.Server.Attachment.{MaterializedAttachment}
use crossbridge.Server.Handler.{dispatch, respond, handle_connection}

-- What has arrived and what was sent.
abbrev pub Duplex : Type 0
Duplex = Bytes × Bytes

abbrev pub duplex_read : Read Duplex
duplex_read = record {
  read_exact = λ n s. let (r, input) = slice_read_exact n s.0 in (r, (input, s.1));
}

abbrev pub duplex_write : Write Duplex
duplex_write = record { write_all = λ b s. (ok tt, (s.0, s.1 ++ b)) }

module _ {T : Type 0} (codec : Codec T) where
  pub duplex_reads :
      (s : Duplex)
      → read_message duplex_read codec s
        ≡ (let (r, input) = read_message_sync slice_read codec s.0 in (r, (input, s.1)))
  unfolding read_message read_message_sync
  duplex_reads s = ground arith

  duplex_writes :
      (msg : T) (s : Duplex)
      → write_message duplex_write codec msg s
        ≡ (let (r, out) = write_message_sync vec_write codec msg s.1 in (r, (s.0, out)))
  unfolding write_message write_message_sync
  duplex_writes msg s = ground arith

  pub sends :
      (msg : T) (input answer : Bytes)
      → encode codec msg ≡ ok answer
      → write_message duplex_write codec msg (input, []) ≡ (ok tt, (input, frame answer))
  sends msg input answer fits =
      duplex_writes msg (input, []) ∙ rw (write_message_frame codec msg [] answer fits) refl

module _ {D : Type 0} (db : Database D) (requests : Codec ClientRequest)
    (responses : Codec ServerResponse)
    (materialize : List Attachment → Result Text MaterializedAttachment) (peer : Text) where
  -- With faithful codecs: a request that a client framed is carried out once, the rest of the
  -- input is left unread, and the client reads back what carrying it out came to, a failure as
  -- an error response, if that response fits into a frame.
  pub request_is_answered :
      IsFaithful requests
      → IsFaithful responses
      → (q : ClientRequest) (payload answer rest : Bytes) (d d' : D) (result : Result Text ℤ)
      → encode requests q ≡ ok payload
      → dispatch db materialize peer q d ≡ (result, d')
      → encode responses (respond db result) ≡ ok answer
      → (handle_connection db duplex_read duplex_write requests responses materialize peer
            ((frame payload ++ rest, []), d)
          ≡ (ok tt, ((rest, frame answer), d')))
        × (read_message_sync slice_read responses (frame answer) ≡ (ok (respond db result), []))
  unfolding handle_connection
  request_is_answered fq fr q payload answer rest d d' result sent carried fits =
      let reads : read_message duplex_read requests (frame payload ++ rest, [])
          ≡ (ok q, (rest, [])) =
        duplex_reads requests (frame payload ++ rest, [])
        ∙ rw (read_message_frame requests fq q rest payload sent) refl in
      let writes = sends responses (respond db result) rest answer fits in
      (
        ground (arith, reads, writes),
        subst
            (λ (b : Bytes). read_message_sync slice_read responses b ≡ (ok (respond db result), []))
            (append-nil (frame answer))
            (read_message_frame responses fr (respond db result) [] answer fits),
      )

  -- With a faithful codec: input from which no request can be read changes nothing in the
  -- database, and is answered by an error response with the reason, if that fits into a frame.
  pub malformed_is_answered :
      IsFaithful responses
      → (input input' answer : Bytes) (e : Error) (d : D)
      → read_message_sync slice_read requests input ≡ (err e, input')
      → encode responses (failed (codes "malformed request: " ++ display_error e)) ≡ ok answer
      → (handle_connection db duplex_read duplex_write requests responses materialize peer
            ((input, []), d)
          ≡ (ok tt, ((input', frame answer), d)))
        × (read_message_sync slice_read responses (frame answer)
            ≡ (ok (failed (codes "malformed request: " ++ display_error e)), []))
  unfolding handle_connection
  malformed_is_answered fr input input' answer e d bad fits =
      let reads : read_message duplex_read requests (input, []) ≡ (err e, (input', [])) =
        duplex_reads requests (input, []) ∙ rw (bad) refl in
      let writes =
        sends responses (failed (codes "malformed request: " ++ display_error e)) input' answer
          fits in
      (
        ground (arith, reads, writes),
        subst
            (λ (b : Bytes).
              read_message_sync slice_read responses b
              ≡ (ok (failed (codes "malformed request: " ++ display_error e)), []))
            (append-nil (frame answer))
            (read_message_frame responses fr
              (failed (codes "malformed request: " ++ display_error e)) [] answer fits),
      )
