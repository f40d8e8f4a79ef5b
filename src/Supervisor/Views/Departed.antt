-- ===== src/Supervisor/Views/Departed.antt =====
-- A departure leaves every connected server informed of its peers, or with its departure queued.
use crossbridge.Prelude.{
  not, ◌&&◌, List, ◌∷◌, ◌++◌, ◌≡◌, ◌⊎◌, inl, inr, ◌∙◌, some, ◌==◌, In, In-append_left, nat_eq_iff,
  nat_has_eq, arith, Option-cases,
}
use crossbridge.Prelude.Text.{Text, text_has_eq, text_eq_iff}
use crossbridge.Prelude.HashMap
use crossbridge.Prelude.HashMap.{HashMap}
use crossbridge.Prelude.HashMap.Laws.{get-remove}
use crossbridge.Protocol.{Notification, notification, peer_left}
use crossbridge.Supervisor.{
  ConnId, ConnRecord, departed, Groups, State, Faults, group_map, is_registered, leave, deliver,
  departures, depart, handle_departure,
}
use crossbridge.Supervisor.Delivery.{In-departures}
use crossbridge.Supervisor.Departure.{departs_lem, departure_unknown}
use crossbridge.Supervisor.Invariant.{Inv, leave-IsConsistent}
use crossbridge.Supervisor.Views.{hear, view, IsInformed, HasOwnStreams}
use crossbridge.Supervisor.Views.Heard.{view-deliver}
use crossbridge.Supervisor.Views.Informed.{contains-values, registered-leave}

module _ (f : Faults) (id : ConnId) (gone : ConnRecord) (s : State) (v : Inv s)
    (own : HasOwnStreams s.conns) (held : HashMap.get id s.conns ≡ some gone)
    (informed : IsInformed (departed id ∷ s.events) s) where
  abbrev left : Notification
  left = peer_left gone.slug

  abbrev groups_after : Groups
  groups_after = leave gone.group gone.slug s.groups

  abbrev conns_after : HashMap ConnId ConnRecord
  conns_after = HashMap.remove id s.conns

  abbrev stay : List ConnId
  stay = HashMap.values (group_map gone.group groups_after)

  still :
      (j : ConnId) (rec : ConnRecord)
      → HashMap.get j conns_after ≡ some rec
      → (HashMap.get j s.conns ≡ some rec) × (id ≡ j → ⊥)
  still j rec h = (
    ground (arith, h, get-remove id j s.conns),
    λ same. ground (arith, h, same, get-remove id j s.conns, nat_eq_iff id j),
  )

  own_after : HasOwnStreams conns_after
  own_after i j rec rec' hi hj = own i j rec rec' (still i rec hi).0 (still j rec' hj).0

  stayed_informed :
      (j : ConnId) (rec : ConnRecord)
      → HashMap.get j conns_after ≡ some rec
      → ((slug : Text)
          → view rec.write_half (deliver f (notification left) conns_after stay s.sent).1 slug ≡ (
              HashMap.contains_key slug (group_map rec.group groups_after)
              && not (slug == rec.slug)))
        ⊎ In
            (departed j)
            (s.events ++ departures (deliver f (notification left) conns_after stay s.sent).0)
  unfolding is_registered hear
  stayed_informed j rec h = elim (informed j rec (still j rec h).0) [
    | inr (inl same) ↦ absurd ((still j rec h).1 (ground (arith, same)))
    | inr (inr q) ↦ inr (In-append_left (departed j) s.events _ q)
    | inl knows ↦
        In-departures j _ s.events
          (elim (view-deliver f left conns_after own_after j rec h stay s.sent) [
            | inr lost ↦ inr lost
            | inl heard ↦ inl (λ slug.
                heard slug
                ∙ ground (
                  arith,
                  knows slug,
                  contains-values groups_after conns_after s.next_id
                      (leave-IsConsistent s.groups s.conns s.next_id v id gone held) j rec
                      gone.group h,
                  registered-leave gone.group gone.slug s.groups rec.group slug,
                  text_eq_iff gone.group rec.group,
                  text_eq_iff rec.group gone.group,
                ))
          ])
  ]

  departs-IsInformed : IsInformed (handle_departure f id s).events (handle_departure f id s)
  unfolding depart is_registered
  departs-IsInformed = rw (departs_lem f id gone s held) stayed_informed

-- The event that is handled is no longer in the queue; an unknown id leaves all as it was.
pub departure-IsInformed :
    (f : Faults) (id : ConnId) (s : State)
    → Inv s
    → HasOwnStreams s.conns
    → IsInformed (departed id ∷ s.events) s
    → IsInformed (handle_departure f id s).events (handle_departure f id s)
departure-IsInformed f id s v own informed = elim (Option-cases (HashMap.get id s.conns)) [
  | inr (rec, held) ↦ departs-IsInformed f id rec s v own held informed
  | inl unknown ↦ rw (departure_unknown f id s unknown) (λ j rec h. elim (informed j rec h) [
    | inl knows ↦ inl knows
    | inr (inl same) ↦ absurd (ground (arith, h, same, unknown))
    | inr (inr q) ↦ inr q
  ])
]
