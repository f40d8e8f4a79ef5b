-- ===== src/Handshake.antt =====
-- crossbridge-supervisor/src/lib.rs and crossbridge-server/src/supervisor.rs together: a server that
-- registers, on a stream of bytes in each direction.
use crossbridge.Prelude.{
  ◌≡◌, ◌↔◌, ◌∙◌, ◌++◌, refl, true, some, none, List, [], ◌∷◌, In, Result, ok, err, arith, subst,
  append-nil,
}
use crossbridge.Prelude.Text.{Text, codes, text_has_eq, text_eq_iff}
use crossbridge.Prelude.Text.Laws.{contains_prefix}
use crossbridge.Prelude.HashMap
use crossbridge.Prelude.FilePath.{FilePath}
use crossbridge.Prelude.FileSystem.{FileSystem}
use crossbridge.Protocol.{Register, SupervisorMessage, register_response, ack, nack}
use crossbridge.Protocol.Framing.{Bytes, Codec, encode, read_message_sync, slice_read, read_message}
use crossbridge.Protocol.Framing.RoundTrip.{IsFaithful, frame, read_message_frame}
use crossbridge.Supervisor.{
  ConnId, StreamId, State, Faults, group_map, is_registered, handle_registration, duplicate_reason,
  reject,
}
use crossbridge.Supervisor
use crossbridge.Supervisor.Members.{member, member-enter}
use crossbridge.Supervisor.Registration.{Accepts, ack_lists_members}
use crossbridge.Server.Handler.Connection.{Duplex, duplex_read, duplex_write, duplex_reads, sends}
use crossbridge.Server.Supervisor.Backoff.{IsFinal, schedule, backoff_lem}
use crossbridge.Server.Supervisor.{
  Registration, first_message, connect_and_register, is_rejection,
  connect_and_register_with_backoff,
}

duplicate_refused :
    (f : Faults) (stream : StreamId) (reg : Register) (s : State)
    → is_registered s reg.group reg.slug ≡ true
    → let no = register_response (nack (duplicate_reason reg)) in
      f.write stream no ≡ none
      → ((handle_registration f stream reg s).sent ≡ (stream, no) ∷ s.sent)
        × ((handle_registration f stream reg s).closed ≡ stream ∷ s.closed)
unfolding handle_registration reject Supervisor.write_message
duplicate_refused f stream reg s taken goes =
    rw (taken, reject) (rw (goes, Supervisor.write_message) (refl, refl))

read_framed :
    {T : Type 0} (codec : Codec T)
    → IsFaithful codec
    → (msg : T) (payload : Bytes) → encode codec msg ≡ ok payload
    → read_message_sync slice_read codec (frame payload) ≡ (ok msg, [])
read_framed codec faithful msg payload fits =
    subst (λ (b : Bytes). read_message_sync slice_read codec b ≡ (ok msg, []))
      (append-nil (frame payload)) (read_message_frame codec faithful msg [] payload fits)

rejection_lem :
    (reason : Text) → is_rejection (codes "supervisor rejected registration: " ++ reason) ≡ true
unfolding is_rejection codes
rejection_lem reason =
    contains_prefix b's' (codes "upervisor rejected registration") (codes ": " ++ reason)

module _ (registers : Codec Register) (messages : Codec SupervisorMessage)
    (debug : SupervisorMessage → Text) where
  -- What the server does on a stream on which `m` comes first.
  abbrev pub attempt : FilePath → Register → Bytes → Result Text (Registration Duplex)
  attempt path reg input =
      connect_and_register duplex_read duplex_write registers messages debug (ok (input, [])) path
        reg.slug reg.group

  attempt_lem :
      IsFaithful messages
      → (path : FilePath) (reg : Register) (m : SupervisorMessage) (hello payload rest : Bytes)
      → encode registers reg ≡ ok hello
      → encode messages m ≡ ok payload
      → attempt path reg (frame payload ++ rest)
        ≡ first_message duplex_read duplex_write registers messages debug (rest, frame hello) m
  unfolding connect_and_register
  attempt_lem faithful path reg m hello payload rest said heard =
      let writes = sends registers reg (frame payload ++ rest) hello said in
      let reads : read_message duplex_read messages (frame payload ++ rest, frame hello)
          ≡ (ok m, (rest, frame hello)) =
        duplex_reads messages (frame payload ++ rest, frame hello)
        ∙ rw (read_message_frame messages faithful m rest payload heard) refl in
      ground (arith, writes, reads)

  -- With faithful codecs: when the supervisor accepts a registration, the server whose stream carries
  -- that Ack comes to have registered with exactly the members that the group had as its peers, and
  -- what follows the Ack is left to be read; and the supervisor reads from it the slug and the group
  -- that it entered.
  pub accepted_handshake :
      (f : Faults) (stream : StreamId) (reg : Register) (s : State) (fs : FileSystem)
      → Accepts f stream reg s fs
      → IsFaithful registers
      → IsFaithful messages
      → (path : FilePath) (hello payload rest : Bytes) → encode registers reg ≡ ok hello
      → let peers = HashMap.keys (group_map reg.group s.groups) in
        encode messages (register_response (ack peers)) ≡ ok payload
        → let t = handle_registration f stream reg s in
          (attempt path reg (frame payload ++ rest)
            ≡ ok (record { stream = (rest, frame hello); peers = peers }))
          × (read_message_sync slice_read registers (frame hello) ≡ (ok reg, []))
          × In (stream, register_response (ack peers)) t.sent
          × (member t.groups reg.group reg.slug ≡ some s.next_id)
          × ((slug : Text)
              → In slug peers ↔ ((id : ConnId) × (member s.groups reg.group slug ≡ some id)))
  unfolding first_message
  accepted_handshake f stream reg s fs a fr fm path hello payload rest said heard =
      let (entered, sent, listed, _) = ack_lists_members f stream reg s fs a in
      (
        attempt_lem fm path reg (register_response (ack _)) hello payload rest said heard,
        read_framed registers fr reg hello said,
        sent,
        rw entered.groups_lem (
            member-enter reg.group reg.slug s.next_id s.groups reg.group reg.slug
            ∙ ground (arith, text_eq_iff reg.group reg.group, text_eq_iff reg.slug reg.slug)),
        listed,
      )

  -- With a faithful codec: when the slug is taken, and the Nack goes out, the attempt of the server
  -- that reads it fails with the supervisor's reason, and the server does not try again.
  pub rejected_handshake :
      (f : Faults) (stream : StreamId) (reg : Register) (s : State)
      → is_registered s reg.group reg.slug ≡ true
      → let no = register_response (nack (duplicate_reason reg)) in
        f.write stream no ≡ none
        → IsFaithful messages
        → (path : FilePath) (hello payload rest : Bytes)
          (later : List (Result Text (Registration Duplex)))
        → encode registers reg ≡ ok hello
        → encode messages no ≡ ok payload
        → let t = handle_registration f stream reg s in
          let reason = codes "supervisor rejected registration: " ++ duplicate_reason reg in
          (t.sent ≡ (stream, no) ∷ s.sent)
          × (t.closed ≡ stream ∷ s.closed)
          × (connect_and_register_with_backoff (attempt path reg (frame payload ++ rest) ∷ later)
              ≡ ([], some (err reason)))
  unfolding first_message IsFinal schedule
  rejected_handshake f stream reg s taken goes fm path hello payload rest later said heard = (
    (duplicate_refused f stream reg s taken goes).0,
    (duplicate_refused f stream reg s taken goes).1,
    rw
        (attempt_lem fm path reg (register_response (nack (duplicate_reason reg))) hello payload
          rest said heard)
        (backoff_lem [] (err _) later tt (rejection_lem (duplicate_reason reg))),
  )
