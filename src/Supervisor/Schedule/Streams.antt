-- ===== src/Supervisor/Schedule/Streams.antt =====
-- Streams are not shared: neither by two connections, nor by one and a registration that waits.
use crossbridge.Prelude.{
  List, [], ◌∷◌, ◌++◌, ◌≡◌, inl, inr, refl, subst, some, In, In-append_cases, arith, nat_eq,
  nat_has_eq, Bool-cases, Option-cases,
}
use crossbridge.Prelude.HashMap
use crossbridge.Prelude.HashMap.{HashMap}
use crossbridge.Prelude.HashMap.Laws.{get-insert}
use crossbridge.Protocol.{Register}
use crossbridge.Supervisor.{
  ConnId, StreamId, ConnRecord, Event, registered, departed, State, Faults, departures,
  handle_departure, handle_registration,
}
use crossbridge.Supervisor.Registration.{IsEnrolled, record_of, registration_outcome}
use crossbridge.Supervisor.Departure.{departure_queues, departure_effect, departure_unknown}
use crossbridge.Supervisor.Views.{HasOwnStreams, IsUnused}

abbrev pub IsWaiting : StreamId → List Event → Type 0
IsWaiting stream es = (reg : Register) × In (registered stream reg) es

-- A stream waits for its registration once.
abbrev pub Once : List Event → Type 0
Once [] = Unit {0}
Once (registered stream reg ∷ es) = (IsWaiting stream es → ⊥) × Once es
Once (departed id ∷ es) = Once es

abbrev pub IsNew : StreamId → State → Type 0
IsNew stream s = IsUnused stream s.conns × (IsWaiting stream s.events → ⊥)

-- The connections and the events that are still to be handled.
pub record IsSeparate (conns : HashMap ConnId ConnRecord) (es : List Event) : Type 0 where
  pub own : HasOwnStreams conns
  pub unused : (stream : StreamId) → IsWaiting stream es → IsUnused stream conns
  pub once : Once es

departures_wait_not :
    (stream : StreamId) (ids : List ConnId) → IsWaiting stream (departures ids) → ⊥
departures_wait_not stream [] w = w.1
departures_wait_not stream (i ∷ ids) (reg, inl e) = cc
departures_wait_not stream (i ∷ ids) (reg, inr h) = departures_wait_not stream ids (reg, h)

pub IsWaiting-before :
    (stream : StreamId) (es : List Event) (ids : List ConnId)
    → IsWaiting stream (es ++ departures ids)
    → IsWaiting stream es
IsWaiting-before stream es ids (reg, h) =
    elim (In-append_cases (registered stream reg) es (departures ids) h) [
      | inl old ↦ (reg, old)
      | inr new ↦ absurd (departures_wait_not stream ids (reg, new))
    ]

pub Once-append : (es : List Event) (ids : List ConnId) → Once es → Once (es ++ departures ids)
Once-append [] [] o = tt
Once-append [] (i ∷ ids) o = Once-append [] ids o
Once-append (registered stream reg ∷ es) ids o =
    (λ w. o.0 (IsWaiting-before stream es ids w), Once-append es ids o.1)
Once-append (departed id ∷ es) ids o = Once-append es ids o

pub Once-connect :
    (stream : StreamId) (reg : Register) (es : List Event)
    → (IsWaiting stream es → ⊥)
    → Once es
    → Once (es ++ registered stream reg ∷ [])
Once-connect stream reg [] new o = (λ w. w.1, tt)
Once-connect stream reg (departed id ∷ es) new o =
    Once-connect stream reg es (λ w. new (w.0, inr w.1)) o
Once-connect stream reg (registered t r ∷ es) new o = (
  λ w. elim (In-append_cases (registered t w.0) es (registered stream reg ∷ []) w.1) [
    | inl old ↦ o.0 (w.0, old)
    | inr (inl same) ↦ new (r, inl (ground (arith, same)))
    | inr (inr none_left) ↦ none_left
  ],
  Once-connect stream reg es (λ w. new (w.0, inr w.1)) o.1,
)

-- Handling the event at the head of the queue.
module _ (f : Faults) (s : State) where
  pub departure-IsSeparate :
      (id : ConnId)
      → IsSeparate s.conns (departed id ∷ s.events)
      → IsSeparate (handle_departure f id s).conns (handle_departure f id s).events
  departure-IsSeparate id p =
      let (failed, events_lem, _) = departure_queues f id s in
      rw events_lem (record {
        own = λ i j r r' hi hj. p.own i j r r' (before i r hi) (before j r' hj);
        unused = λ stream w i r h.
            p.unused stream (waiting_later (IsWaiting-before stream s.events failed w)) i r
              (before i r h);
        once = Once-append s.events failed p.once;
      })
    where
      before :
          (i : ConnId) (r : ConnRecord)
          → HashMap.get i (handle_departure f id s).conns ≡ some r
          → HashMap.get i s.conns ≡ some r
      before i r h = elim (Option-cases (HashMap.get id s.conns)) [
        | inl gone ↦ rw (departure_unknown f id s gone) at h
        | inr (rec, e) ↦ ground (arith, h, (departure_effect f id rec s e).1 i)
      ]

      waiting_later :
          {stream : StreamId}
          → IsWaiting stream s.events
          → IsWaiting stream (departed id ∷ s.events)
      waiting_later w = (w.0, inr w.1)

  enrolled-IsSeparate :
      (stream : StreamId) (reg : Register) (t : State)
      → IsSeparate s.conns (registered stream reg ∷ s.events)
      → IsEnrolled stream reg s t
      → IsSeparate t.conns t.events
  enrolled-IsSeparate stream reg t p e =
      let (failed, events_lem) = e.queued in
      rw (events_lem, e.conns_lem)
        (record {
          own = λ i j r r' hi hj share. ground (
            arith,
            hi,
            hj,
            share,
            get-insert s.next_id i (record_of stream reg) s.conns,
            get-insert s.next_id j (record_of stream reg) s.conns,
            p.own i j r r',
            p.unused stream (reg, inl refl) i r,
            p.unused stream (reg, inl refl) j r',
          );
          unused = λ st w i r h share.
              let earlier = IsWaiting-before st s.events failed w in
              let entry = get-insert s.next_id i (record_of stream reg) s.conns in
              elim (Bool-cases (nat_eq s.next_id i)) [
                | inl new ↦
                    let same : st ≡ stream = ground (arith, h, share, new, entry) in
                    p.once.0 (subst (λ x. IsWaiting x s.events) same earlier)
                | inr old ↦
                    p.unused st (earlier.0, inr earlier.1) i r (ground (arith, h, old, entry)) share
              ];
          once = Once-append s.events failed p.once.1;
        })

  pub registration-IsSeparate :
      (stream : StreamId) (reg : Register)
      → IsSeparate s.conns (registered stream reg ∷ s.events)
      → IsSeparate
          (handle_registration f stream reg s).conns
          (handle_registration f stream reg s).events
  registration-IsSeparate stream reg p = elim (registration_outcome f stream reg s).0 [
    | inr e ↦ enrolled-IsSeparate stream reg (handle_registration f stream reg s) p e
    | inl u ↦
        rw (u.same_conns, u.same_events)
          (record { own = p.own; unused = λ st w. p.unused st (w.0, inr w.1); once = p.once.1 })
  ]
