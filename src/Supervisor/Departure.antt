-- ===== src/Supervisor/Departure.antt =====
-- crossbridge-supervisor/src/lib.rs, handle_departure: who is left, and who hears of it.
use crossbridge.Prelude.{
  not, ◌&&◌, none, some, List, [], ◌∷◌, ◌++◌, ◌≡◌, ◌⊎◌, inl, inr, refl, sym, append-nil, ◌∙◌,
  if◌then◌else◌, ◌==◌, In, filter, Option-cases, nat_eq_iff, nat_has_eq,
}
use crossbridge.Prelude.Text.{Text, text_has_eq}
use crossbridge.Prelude.HashMap
use crossbridge.Prelude.HashMap.{HashMap}
use crossbridge.Prelude.HashMap.Laws.{get-remove, In-values_of_get}
use crossbridge.Protocol.{SupervisorMessage, notification, peer_left}
use crossbridge.Supervisor.{
  ConnId, StreamId, ConnRecord, departed, State, Faults, Groups, departures, group_map, leave,
  depart, handle_departure,
}
use crossbridge.Supervisor.Members.{member, member-leave}
use crossbridge.Supervisor.Delivery.{In-departures, deliver_reaches, deliver_only}

module _ (f : Faults) (id : ConnId) (rec : ConnRecord) (s : State) where
  pub departs_lem :
      HashMap.get id s.conns ≡ some rec
      → handle_departure f id s ≡ depart f id rec (record s { conns = HashMap.remove id s.conns })
  unfolding handle_departure
  departs_lem e = rw (e, handle_departure)

  -- After the departure of a connection that is in the table, it and its entry are gone, its
  -- watcher is stopped and its stream closed; every other connection and entry stays.
  pub departure_effect :
      HashMap.get id s.conns ≡ some rec
      → let t = handle_departure f id s in
        ((group slug : Text)
          → member t.groups group slug
            ≡ (if rec.group == group && rec.slug == slug then none else member s.groups group slug))
        × ((j : ConnId) → HashMap.get j t.conns ≡ (if id == j then none else HashMap.get j s.conns))
        × (t.watchers ≡ filter (λ w. not (w == id)) s.watchers)
        × (t.closed ≡ rec.write_half ∷ s.closed)
  unfolding depart
  departure_effect e =
      rw (departs_lem e)
        (member-leave rec.group rec.slug s.groups, λ j. get-remove id j s.conns, refl, refl)

  -- When a connection departs, each member that the group still has is sent PeerLeft, or its own
  -- departure is queued because the write failed; nothing else is sent.
  pub departure_notifies :
      HashMap.get id s.conns ≡ some rec
      → let t = handle_departure f id s in
        let left = notification (peer_left rec.slug) in
        ((slug : Text) (j : ConnId) (peer : ConnRecord)
          → member t.groups rec.group slug ≡ some j
          → HashMap.get j t.conns ≡ some peer
          → In (peer.write_half, left) t.sent ⊎ In (departed j) t.events)
        × ((x : StreamId × SupervisorMessage)
            → In x t.sent
            → In x s.sent
              ⊎ ((j : ConnId) × (peer : ConnRecord) × In j
                    (HashMap.values (group_map rec.group t.groups))
                  × (HashMap.get j t.conns ≡ some peer)
                  × (x ≡ (peer.write_half, left))))
  unfolding depart
  departure_notifies e = rw (departs_lem e) (
    λ slug j peer held conn. In-departures j _ s.events (
        deliver_reaches f left conns members s.sent j peer
          (In-values_of_get slug j (group_map rec.group groups) held) conn),
    λ x h. deliver_only f left conns members s.sent x h,
  )
    where
      left : SupervisorMessage
      left = notification (peer_left rec.slug)

      groups : Groups
      groups = leave rec.group rec.slug s.groups

      conns : HashMap ConnId ConnRecord
      conns = HashMap.remove id s.conns

      members : List ConnId
      members = HashMap.values (group_map rec.group groups)

pub departure_unknown :
    (f : Faults) (id : ConnId) (s : State)
    → HashMap.get id s.conns ≡ none
    → handle_departure f id s ≡ s
unfolding handle_departure
departure_unknown f id s gone = rw (gone, handle_departure)

-- A second departure of the same connection, which a failed write and the watcher may both queue,
-- changes nothing.
pub handle_departure_idem :
    (f f' : Faults) (id : ConnId) (s : State)
    → handle_departure f' id (handle_departure f id s) ≡ handle_departure f id s
handle_departure_idem f f' id s = elim (Option-cases (HashMap.get id s.conns)) [
  | inl gone ↦ rw (departure_unknown f id s gone) (departure_unknown f' id s gone)
  | inr (rec, e) ↦
      departure_unknown f' id (handle_departure f id s)
        ((departure_effect f id rec s e).1 id ∙ rw ((nat_eq_iff id id).1 refl))
]

-- Only departures are queued.
pub departure_queues :
    (f : Faults) (id : ConnId) (s : State)
    → (failed : List ConnId) × ((handle_departure f id s).events ≡ s.events ++ departures failed)
      × ((handle_departure f id s).next_id ≡ s.next_id)
unfolding depart
departure_queues f id s = elim (Option-cases (HashMap.get id s.conns)) [
  | inl gone ↦ rw (departure_unknown f id s gone) ([], sym (append-nil s.events), refl)
  | inr (rec, e) ↦ rw (departs_lem f id rec s e) (_, refl, refl)
]
