-- ===== src/Exchange/Wire.antt =====
-- The exchange of a request over a connection: round_trip of crossbridge-client/src/main.rs on one
-- end, handle_connection of crossbridge-server/src/handler.rs on the other.
use crossbridge.Prelude.{
  Option, none, some, List, [], ◌++◌, ◌≡◌, refl, subst, ◌∙◌, arith, Result, ok, append-nil,
}
use crossbridge.Prelude.Text.{Text}
use crossbridge.Prelude.FilePath.{FilePath}
use crossbridge.Protocol.{Attachment, ClientRequest, ServerResponse}
use crossbridge.Protocol.Framing.{
  Bytes, Codec, Read, Write, vec_write, slice_read, slice_read_exact, encode, read_message_sync,
  write_message_sync,
}
use crossbridge.Protocol.Framing.RoundTrip.{IsFaithful, frame, write_message_frame}
use crossbridge.Crosslink.{Database}
use crossbridge.Server.Attachment.{MaterializedAttachment}
use crossbridge.Server.Handler.{dispatch, respond, handle_connection}
use crossbridge.Server.Handler.Connection.{duplex_read, duplex_write, request_is_answered}
use crossbridge.Client.Commands.{round_trip}

-- What the client has written, and once it reads, what it has not read of the answer.
abbrev pub Wire : Type 0
Wire = Bytes × Option Bytes

abbrev pub fresh : Wire
fresh = ([], none)

abbrev pub wire_write : Write Wire
wire_write = record { write_all = λ b s. (ok tt, (s.0 ++ b, s.1)) }

-- A read waits until the other end has answered what was written.
abbrev pub wire_read : (Bytes → Bytes) → Read Wire
wire_read serve = record {
  read_exact = λ n s.
      let input : Bytes = elim s.1 [ some b ↦ b | none ↦ serve s.0 ] in
      let (r, rest) = slice_read_exact n input in (r, (s.0, some rest));
}

module _ {T : Type 0} (codec : Codec T) where
  wire_writes :
      (msg : T) (s : Wire)
      → write_message_sync wire_write codec msg s
        ≡ (let (r, out) = write_message_sync vec_write codec msg s.0 in (r, (out, s.1)))
  unfolding write_message_sync
  wire_writes msg s = ground arith

  wire_reads :
      (serve : Bytes → Bytes) (sent : Bytes)
      → read_message_sync (wire_read serve) codec (sent, none) ≡ (
          let (r, rest) = read_message_sync slice_read codec (serve sent) in (r, (sent, some rest)))
  unfolding read_message_sync
  wire_reads serve sent = ground arith

module _ {E : Type 0} (db : Database E) (requests : Codec ClientRequest)
    (responses : Codec ServerResponse)
    (materialize : List Attachment → Result Text MaterializedAttachment) (peer : Text) (e : E) where
  -- The server at the other end: what it has written at the end, and its database then.
  unfoldable pub served : Bytes → Bytes × E
  served sent =
      let (r, (stream, e')) =
        handle_connection db duplex_read duplex_write requests responses materialize peer
          ((sent, []), e) in
      (stream.1, e')

  serves :
      (q : ClientRequest) (payload answer : Bytes)
      → IsFaithful requests
      → IsFaithful responses
      → encode requests q ≡ ok payload
      → encode responses (respond db (dispatch db materialize peer q e).0) ≡ ok answer
      → (served (frame payload) ≡ (frame answer, (dispatch db materialize peer q e).1))
        × (read_message_sync slice_read responses (frame answer)
            ≡ (ok (respond db (dispatch db materialize peer q e).0), []))
  unfolding served
  serves q payload answer fq fr sent fits =
      let (handled, read) =
        request_is_answered db requests responses materialize peer fq fr q payload answer [] e
          (dispatch db materialize peer q e).1 (dispatch db materialize peer q e).0 sent refl
          fits in
      let handled' : handle_connection db duplex_read duplex_write requests responses materialize
            peer ((frame payload, []), e)
          ≡ (ok tt, (([], frame answer), (dispatch db materialize peer q e).1)) =
        subst
          (λ (b : Bytes).
            handle_connection db duplex_read duplex_write requests responses materialize peer
              ((b, []), e)
            ≡ (ok tt, (([], frame answer), (dispatch db materialize peer q e).1)))
          (append-nil (frame payload)) handled in
      (rw handled' refl, read)

  -- With faithful codecs: over a connection to a server, a client that sends a request gets the
  -- response to what carrying it out came to, and the server's database is then that of carrying it
  -- out once; if the request and the response fit into a frame.
  pub round_trip_carries :
      (connect : FilePath → Result Text Wire) (path : FilePath) (label : Text) (q : ClientRequest)
      (payload answer : Bytes)
      → IsFaithful requests
      → IsFaithful responses
      → connect path ≡ ok fresh
      → encode requests q ≡ ok payload
      → encode responses (respond db (dispatch db materialize peer q e).0) ≡ ok answer
      → (round_trip connect
            (wire_read (λ b. (served b).0))
            wire_write
            requests
            responses
            path
            label
            q
          ≡ ok (respond db (dispatch db materialize peer q e).0))
        × ((served (write_message_sync vec_write requests q []).1).1
            ≡ (dispatch db materialize peer q e).1)
  unfolding round_trip
  round_trip_carries connect path label q payload answer fq fr connected sent fits =
      let (answered, read) = serves q payload answer fq fr sent fits in
      let written : write_message_sync vec_write requests q [] ≡ (ok tt, frame payload) =
        write_message_frame requests q [] payload sent in
      let writes : write_message_sync wire_write requests q fresh ≡ (ok tt, (frame payload, none)) =
        wire_writes requests q fresh ∙ rw written refl in
      let reads : read_message_sync (wire_read (λ b. (served b).0)) responses (frame payload, none)
          ≡ (ok (respond db (dispatch db materialize peer q e).0), (frame payload, some [])) =
        wire_reads responses (λ b. (served b).0) (frame payload) ∙ rw (answered, read) refl in
      (ground (arith, connected, writes, reads), rw (written, answered) refl)
