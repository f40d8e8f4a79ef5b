-- ===== src/Supervisor/Delivery.antt =====
-- crossbridge-supervisor/src/lib.rs: what the loop over `peer_ids` leaves in the log.
use crossbridge.Prelude.{
  true, false, none, some, List, [], ◌∷◌, ◌≡◌, ◌⊎◌, inl, inr, refl, ap, arith, In, In-append_right,
  ◌++◌, Bool-cases, Option-cases, nat_eq, nat_eq_iff, nat_has_eq,
}
use crossbridge.Prelude.HashMap
use crossbridge.Prelude.HashMap.{HashMap}
use crossbridge.Protocol.{SupervisorMessage, Error}
use crossbridge.Supervisor.{
  ConnId, StreamId, ConnRecord, Log, Faults, Event, departed, departures, write_message,
  deliver_one, deliver,
}

In-departed :
    (id : ConnId) (failed : List ConnId) → In id failed → In (departed id) (departures failed)
In-departed id [] h = absurd h
In-departed id (i ∷ failed) (inl here) = inl (ap departed here)
In-departed id (i ∷ failed) (inr there) = inr (In-departed id failed there)

-- A peer that could not be reached is queued for departure.
pub In-departures :
    {P : Type 0} (id : ConnId) (failed : List ConnId) (events : List Event)
    → P ⊎ In id failed
    → P ⊎ In (departed id) (events ++ departures failed)
In-departures id failed events (inl p) = inl p
In-departures id failed events (inr h) =
    inr (In-append_right (departed id) events (departures failed) (In-departed id failed h))

module _ (f : Faults) (msg : SupervisorMessage) (conns : HashMap ConnId ConnRecord) where
  -- The three ways of a round.
  pub data Round (id : ConnId) (sent : Log) : Type 0 where
    absent :
        HashMap.get id conns ≡ none → deliver_one f msg conns id sent ≡ (true, sent) → Round id sent
    delivered :
        (rec : ConnRecord)
        → HashMap.get id conns ≡ some rec
        → deliver_one f msg conns id sent ≡ (true, (rec.write_half, msg) ∷ sent)
        → Round id sent
    refused :
        (rec : ConnRecord) (e : Error)
        → HashMap.get id conns ≡ some rec
        → f.write rec.write_half msg ≡ some e
        → deliver_one f msg conns id sent ≡ (false, sent)
        → Round id sent

  pub round : (id : ConnId) (sent : Log) → Round id sent
  unfolding deliver_one write_message
  round id sent = elim (Option-cases (HashMap.get id conns)) [
    | inl none_here ↦ absent none_here (ground arith)
    | inr (rec, found) ↦ elim (Option-cases (f.write rec.write_half msg)) [
      | inl sends ↦ delivered rec found (ground arith)
      | inr (e, fails) ↦ refused rec e found fails (ground arith)
    ]
  ]

  -- A delivery loses nothing of the log.
  pub deliver_keeps :
      (ids : List ConnId) (sent : Log) (x : StreamId × SupervisorMessage)
      → In x sent
      → In x (deliver f msg conns ids sent).1
  unfolding deliver
  deliver_keeps [] sent x h = h
  deliver_keeps (id ∷ ids) sent x h =
      deliver_keeps ids (deliver_one f msg conns id sent).1 x (keeps_one id)
    where
      keeps_one : (id : ConnId) → In x (deliver_one f msg conns id sent).1
      keeps_one id = unfold deliver_one write_message in ground arith

  -- Each peer that has a connection is sent the message or is reported as failed.
  pub deliver_reaches :
      (ids : List ConnId) (sent : Log) (id : ConnId) (rec : ConnRecord)
      → In id ids
      → HashMap.get id conns ≡ some rec
      → In (rec.write_half, msg) (deliver f msg conns ids sent).1
        ⊎ In id (deliver f msg conns ids sent).0
  unfolding deliver
  deliver_reaches [] sent id rec h e = absurd h
  deliver_reaches (i ∷ ids) sent id rec (inl here) e = elim (round i sent) [
    | absent gone o ↦ absurd (ground arith)
    | delivered rec' found o ↦
        inl (deliver_keeps ids (deliver_one f msg conns i sent).1 _ (rw o (inl (ground arith))))
    | refused rec' e' found fails o ↦ inr (rw o (inl here))
  ]
  deliver_reaches (i ∷ ids) sent id rec (inr there) e =
      ground (arith, deliver_reaches ids (deliver_one f msg conns i sent).1 id rec there e)

  -- Only this message is added, and only to peers of the list.
  pub deliver_only :
      (ids : List ConnId) (sent : Log) (x : StreamId × SupervisorMessage)
      → In x (deliver f msg conns ids sent).1
      → In x sent
        ⊎ ((id : ConnId) × (rec : ConnRecord) × In id ids
            × (HashMap.get id conns ≡ some rec)
            × (x ≡ (rec.write_half, msg)))
  unfolding deliver
  deliver_only [] sent x h = inl h
  deliver_only (i ∷ ids) sent x h = elim (deliver_only ids (deliver_one f msg conns i sent).1 x h) [
    | inr (id, rec, listed, found, new) ↦ inr (id, rec, inr listed, found, new)
    | inl old ↦ elim (round i sent) [
      | absent gone o ↦ inl (rw o at old)
      | refused rec e found fails o ↦ inl (rw o at old)
      | delivered rec found o ↦ elim (rw o at old) [
        | inl new ↦ inr (i, rec, inl refl, found, new)
        | inr older ↦ inl older
      ]
    ]
  ]

  -- Why a peer is reported.
  abbrev pub Unreachable : List ConnId → ConnId → Type 0
  Unreachable ids id =
      In id ids
      × ((rec : ConnRecord) × (e : Error) × (HashMap.get id conns ≡ some rec)
          × (f.write rec.write_half msg ≡ some e))

  widen : (i id : ConnId) (ids : List ConnId) → Unreachable ids id → Unreachable (i ∷ ids) id
  widen i id ids (listed, why) = (inr listed, why)

  -- Only a peer of the list that a write failed for is reported.
  pub deliver_failed :
      (ids : List ConnId) (sent : Log) (id : ConnId)
      → In id (deliver f msg conns ids sent).0
      → Unreachable ids id
  unfolding deliver
  deliver_failed [] sent id h = absurd h
  deliver_failed (i ∷ ids) sent id h =
      let later = deliver_failed ids (deliver_one f msg conns i sent).1 id in
      elim (round i sent) [
        | absent gone o ↦ widen i id ids (later (ground arith))
        | delivered rec found o ↦ widen i id ids (later (ground arith))
        | refused rec e found fails o ↦ elim (Bool-cases (nat_eq id i)) [
          | inl same ↦
              (inl ((nat_eq_iff id i).0 same), (rec, e, rw ((nat_eq_iff id i).0 same) found, fails))
          | inr other ↦ widen i id ids (later (ground arith))
        ]
      ]
