-- ===== src/Supervisor/Schedule/Sessions.antt =====
-- crossbridge-supervisor/src/lib.rs: in every reachable state each connected server was sent an Ack,
-- and nothing but notifications since.
use crossbridge.Prelude.{
  ℕ, ◌<◌, List, [], ◌∷◌, ◌++◌, ◌≡◌, inl, inr, refl, sym, some, nat_eq, nat_eq_iff, nat_has_eq,
  arith, Option-cases, Bool-cases,
}
use crossbridge.Prelude.Text.{Text, text_has_eq}
use crossbridge.Prelude.HashMap
use crossbridge.Prelude.HashMap.{HashMap}
use crossbridge.Prelude.HashMap.Laws.{get-insert, get-remove}
use crossbridge.Prelude.FilePath.{FilePath}
use crossbridge.Prelude.FileSystem.{FileSystem}
use crossbridge.Protocol.{
  Register, SupervisorMessage, Notification, register_response, notification, ack, peer_joined,
  peer_left,
}
use crossbridge.Supervisor.{
  ConnId, StreamId, ConnRecord, registered, departed, Log, State, Faults, deliver_one, deliver,
  enroll, depart, init, u64_mod, handle_event, handle_registration, handle_departure,
}
use crossbridge.Supervisor.Delivery.{absent, delivered, refused, round}
use crossbridge.Supervisor.Registration.{record_of, ack_of, registration_cases, accepted_lem}
use crossbridge.Supervisor.Departure.{departs_lem, departure_unknown}
use crossbridge.Supervisor.Views.{IsUnused}
use crossbridge.Supervisor.Views.Session.{Session, since, session_of}
use crossbridge.Supervisor.Schedule.{Step, connect, hang_up, handle, Reach, here, next}
use crossbridge.Supervisor.Schedule.Streams.{IsSeparate}
use crossbridge.Supervisor.Schedule.Reachable.{Reach-IsSound}

-- The last thing on the stream that was no notification was an Ack.
abbrev HasSession : StreamId → Log → Type 0
HasSession stream sent = (x : Session) × (session_of stream sent ≡ some x)

HasSession-notify :
    (stream t : StreamId) (n : Notification) (sent : Log)
    → HasSession stream sent
    → HasSession stream ((t, notification n) ∷ sent)
unfolding session_of since
HasSession-notify stream t n sent ((peers, ns), h) = elim (Bool-cases (nat_eq t stream)) [
  | inl same ↦ rw (same, h) ((peers, ns ++ n ∷ []), refl)
  | inr other ↦ rw other ((peers, ns), h)
]

HasSession-other :
    (stream t : StreamId) (msg : SupervisorMessage) (sent : Log)
    → (t ≡ stream → ⊥)
    → HasSession stream sent
    → HasSession stream ((t, msg) ∷ sent)
unfolding session_of
HasSession-other stream t msg sent ne h = elim (Bool-cases (nat_eq t stream)) [
  | inl same ↦ absurd (ne ((nat_eq_iff t stream).0 same))
  | inr other ↦ rw other h
]

HasSession-ack :
    (stream : StreamId) (peers : List Text) (sent : Log)
    → HasSession stream ((stream, register_response (ack peers)) ∷ sent)
unfolding session_of since
HasSession-ack stream peers sent = rw ((nat_eq_iff stream stream).1 refl) ((peers, []), refl)

HasSession-deliver :
    (f : Faults) (n : Notification) (conns : HashMap ConnId ConnRecord) (ids : List ConnId)
    (stream : StreamId) (sent : Log)
    → HasSession stream sent
    → HasSession stream (deliver f (notification n) conns ids sent).1
unfolding deliver
HasSession-deliver f n conns [] stream sent h = h
HasSession-deliver f n conns (i ∷ ids) stream sent h =
    HasSession-deliver f n conns ids stream (deliver_one f (notification n) conns i sent).1
      (elim (round f (notification n) conns i sent) [
        | absent gone o ↦ rw o h
        | delivered rec found o ↦ rw o (HasSession-notify stream rec.write_half n sent h)
        | refused rec e found fails o ↦ rw o h
      ])

-- Every connected server has its session.
abbrev AllSessions : HashMap ConnId ConnRecord → Log → Type 0
AllSessions conns sent =
    (id : ConnId) (rec : ConnRecord)
    → HashMap.get id conns ≡ some rec
    → HasSession rec.write_half sent

registration-AllSessions :
    (f : Faults) (stream : StreamId) (reg : Register) (s : State)
    → IsUnused stream s.conns
    → AllSessions s.conns s.sent
    → AllSessions
        (handle_registration f stream reg s).conns
        (handle_registration f stream reg s).sent
unfolding enroll
registration-AllSessions f stream reg s unused h = elim (registration_cases f stream reg s) [
  | inl u ↦ λ id rec held.
      let held' : HashMap.get id s.conns ≡ some rec = rw u.same_conns at held in
      elim u.only_to_stream [
        | inl same ↦ rw same (h id rec held')
        | inr (msg, one_more) ↦ rw one_more (
            HasSession-other rec.write_half stream msg s.sent (λ e. unused id rec held' (sym e))
              (h id rec held'))
      ]
  | inr (fs, a) ↦ rw (accepted_lem f stream reg s fs a) (λ id rec held.
      HasSession-deliver f (peer_joined reg.slug) s.conns _ rec.write_half
        ((stream, ack_of s reg) ∷ s.sent)
        (elim (Bool-cases (nat_eq s.next_id id)) [
          | inl same ↦
              let own : rec.write_half ≡ stream =
                ground
                  (arith, held, same, get-insert s.next_id id (record_of stream reg) s.conns) in
              rw own (HasSession-ack stream _ s.sent)
          | inr other ↦
              let held' : HashMap.get id s.conns ≡ some rec =
                ground
                  (arith, held, other, get-insert s.next_id id (record_of stream reg) s.conns) in
              HasSession-other rec.write_half stream (ack_of s reg) s.sent
                (λ e. unused id rec held' (sym e)) (h id rec held')
        ]))
]

departure-AllSessions :
    (f : Faults) (id : ConnId) (s : State)
    → AllSessions s.conns s.sent
    → AllSessions (handle_departure f id s).conns (handle_departure f id s).sent
unfolding depart
departure-AllSessions f id s h = elim (Option-cases (HashMap.get id s.conns)) [
  | inl gone ↦ rw (departure_unknown f id s gone) h
  | inr (rec, e) ↦ rw (departs_lem f id rec s e) (λ j peer held.
      HasSession-deliver f (peer_left rec.slug) (HashMap.remove id s.conns) _ peer.write_half s.sent
        (h j peer (ground (arith, held, get-remove id j s.conns))))
]

Step-AllSessions :
    {s t : State}
    → IsSeparate s.conns s.events
    → Step s t
    → AllSessions s.conns s.sent
    → AllSessions t.conns t.sent
Step-AllSessions p (connect stream reg new) h = h
Step-AllSessions p (hang_up id watched) h = h
Step-AllSessions {s} p (handle f (registered stream reg) es q) h =
    unfold handle_event in
    registration-AllSessions f stream reg (record s { events = es })
      (p.unused stream (reg, rw q (inl refl))) h
Step-AllSessions {s} p (handle f (departed id) es q) h =
    unfold handle_event in departure-AllSessions f id (record s { events = es }) h

pub Reach-session :
    {base : FilePath} {fs : FileSystem} {n : ℕ} {s : State}
    → n < u64_mod
    → Reach base fs n s
    → (id : ConnId) (rec : ConnRecord) → HashMap.get id s.conns ≡ some rec
    → (x : Session) × (session_of rec.write_half s.sent ≡ some x)
Reach-session small here id rec held = absurd (unfold init HashMap.get in cc)
Reach-session small (next r st) id rec held =
    Step-AllSessions (Reach-IsSound (omega (arith, small)) r).separate st
      (Reach-session (omega (arith, small)) r) id rec held
