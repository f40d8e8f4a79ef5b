-- ===== src/Supervisor/Schedule/Settles.antt =====
-- crossbridge-supervisor/src/lib.rs, run: the event loop comes to the end of its events, and then
-- every connected server knows its peers.
use crossbridge.Prelude.{
  ℕ, zero, suc, ◌+◌, ◌<◌, ◌≡◌, ◌⊎◌, not, ◌&&◌, ◌==◌, inl, inr, ap, arith, none, some, List, [], ◌∷◌,
  In, In-append_left, length, Option-cases, nat_has_eq,
}
use crossbridge.Prelude.Text.{Text, text_has_eq}
use crossbridge.Prelude.HashMap
use crossbridge.Prelude.HashMap.{HashMap}
use crossbridge.Prelude.HashMap.Laws.{get-insert}
use crossbridge.Prelude.FilePath.{FilePath}
use crossbridge.Prelude.FileSystem.{FileSystem}
use crossbridge.Protocol.{Register}
use crossbridge.Supervisor.{
  ConnId, StreamId, ConnRecord, Event, registered, departed, State, Faults, u64_mod, departures,
  handle_event, handle_registration, handle_departure, is_registered,
}
use crossbridge.Supervisor.Registration.{record_of, registration_outcome}
use crossbridge.Supervisor.Departure.{departure_queues, departure_effect, departure_unknown}
use crossbridge.Supervisor.Views.{view}
use crossbridge.Supervisor.Schedule.{Reach, drain}
use crossbridge.Supervisor.Schedule.Reachable.{
  IsSound, IsSound-head, handle_event-IsSound, Reach-IsSound,
}
use crossbridge.Supervisor.Schedule.Ends.{
  waiting, waiting-handle_event, event-next_id, Reach-count, done, registers, departs, queue_of,
  ends,
}

-- What holds before the head of the queue is handled, and after.
abbrev IsFine : State → Type 0
IsFine s = (s.next_id + waiting s.events + 1 < u64_mod) × IsSound s.next_id s.events s

handle-IsFine :
    (f : Faults) (e : Event) (es : List Event) (s : State)
    → s.events ≡ e ∷ es
    → IsFine s
    → IsFine (handle_event f e (record s { events = es }))
handle-IsFine f e es s q (small, sound) =
    let s' : State = record s { events = es } in
    let after =
      handle_event-IsSound f e s' s.next_id (omega (arith, small)) (IsSound-head q sound) in
    (
      omega (arith, small, ap waiting q, event-next_id f e s', waiting-handle_event f e s'),
      record {
        inv = after.inv;
        separate = after.separate;
        informed = after.informed;
        counted = omega arith;
      },
    )

drain-IsFine : (k : ℕ) (f : ℕ → Faults) (s : State) → IsFine s → IsFine (drain f k s)
unfolding drain
drain-IsFine zero f s p = p
drain-IsFine (suc k) f s p = elim (queue_of s.events) [
  | done e ↦ rw (e, drain) p
  | registers stream reg rest e ↦
      rw (e, drain)
        (drain-IsFine k (λ i. f (suc i)) _ (handle-IsFine (f 0) (registered stream reg) rest s e p))
  | departs id rest e ↦
      rw (e, drain)
        (drain-IsFine k (λ i. f (suc i)) _ (handle-IsFine (f 0) (departed id) rest s e p))
]

-- A connection that is gone, or whose departure is queued.
abbrev IsLeaving : ConnId → State → Type 0
IsLeaving id s = (id < s.next_id) × ((HashMap.get id s.conns ≡ none) ⊎ In (departed id) s.events)

registration-IsLeaving :
    (f : Faults) (stream : StreamId) (reg : Register) (id : ConnId) (s : State)
    → s.next_id + 1 < u64_mod
    → IsLeaving id s
    → IsLeaving id (handle_registration f stream reg s)
registration-IsLeaving f stream reg id s small (below, leaving) =
    elim (registration_outcome f stream reg s).0 [
      | inl u ↦ rw (u.same_next_id, u.same_conns, u.same_events) (below, leaving)
      | inr e ↦
          let (failed, lem) = e.queued in
          (
            omega (arith, e.next_id_lem),
            elim leaving [
              | inl gone ↦ inl (
                  rw e.conns_lem
                    (ground (arith, below, get-insert s.next_id id (record_of stream reg) s.conns)))
              | inr queued ↦
                  inr (rw lem (In-append_left (departed id) s.events (departures failed) queued))
            ],
          )
    ]

departure-gone :
    (f : Faults) (id j : ConnId) (s : State)
    → (HashMap.get id s.conns ≡ none) ⊎ (j ≡ id)
    → HashMap.get id (handle_departure f j s).conns ≡ none
departure-gone f id j s h = elim (Option-cases (HashMap.get j s.conns)) [
  | inl gone ↦ rw (departure_unknown f j s gone) (ground (arith, h))
  | inr (rec, e) ↦ ground (arith, h, (departure_effect f j rec s e).1 id)
]

departure-IsLeaving :
    (f : Faults) (id j : ConnId) (s : State)
    → (id < s.next_id)
    → ((HashMap.get id s.conns ≡ none) ⊎ In (departed id) (departed j ∷ s.events))
    → IsLeaving id (handle_departure f j s)
departure-IsLeaving f id j s below leaving =
    let (failed, lem, same) = departure_queues f j s in
    (
      omega (arith, same),
      elim leaving [
        | inl gone ↦ inl (departure-gone f id j s (inl gone))
        | inr (inl now) ↦ inl (departure-gone f id j s (inr (ground (arith, now))))
        | inr (inr later) ↦
            inr (rw lem (In-append_left (departed id) s.events (departures failed) later))
      ],
    )

handle-IsLeaving :
    (f : Faults) (e : Event) (es : List Event) (id : ConnId) (s : State)
    → s.events ≡ e ∷ es
    → IsFine s
    → IsLeaving id s
    → IsLeaving id (handle_event f e (record s { events = es }))
unfolding handle_event
handle-IsLeaving f (registered stream reg) es id s q (small, _) (below, leaving) =
    registration-IsLeaving f stream reg id (record s { events = es }) (omega (arith, small))
      (
        below,
        elim leaving [
          | inl gone ↦ inl gone
          | inr queued ↦ elim (rw q at queued) [ inl same ↦ absurd (cc) | inr later ↦ inr later ]
        ],
      )
handle-IsLeaving f (departed j) es id s q fine (below, leaving) =
    departure-IsLeaving f id j (record s { events = es }) below
      (elim leaving [ inl gone ↦ inl gone | inr queued ↦ inr (rw q at queued) ])

gone_of_leaving :
    (id : ConnId) (s : State) → IsLeaving id s → s.events ≡ [] → HashMap.get id s.conns ≡ none
gone_of_leaving id s (below, inl gone) empty = gone
gone_of_leaving id s (below, inr queued) empty = absurd (rw empty at queued)

drain-gone :
    (k : ℕ) (f : ℕ → Faults) (id : ConnId) (s : State)
    → IsFine s
    → IsLeaving id s
    → (drain f k s).events ≡ []
    → HashMap.get id (drain f k s).conns ≡ none
unfolding drain
drain-gone zero f id s fine leaving empty = gone_of_leaving id s leaving empty
drain-gone (suc k) f id s fine leaving empty = elim (queue_of s.events) [
  | done e ↦ rw (e, drain) (gone_of_leaving id s leaving e)
  | registers stream reg rest e ↦
      let t : State = handle_event (f 0) (registered stream reg) (record s { events = rest }) in
      rw (e, drain)
        (drain-gone k (λ i. f (suc i)) id t
          (handle-IsFine (f 0) (registered stream reg) rest s e fine)
          (handle-IsLeaving (f 0) (registered stream reg) rest id s e fine leaving)
          (rw (e, drain) at empty))
  | departs j rest e ↦
      let t : State = handle_event (f 0) (departed j) (record s { events = rest }) in
      rw (e, drain)
        (drain-gone k (λ i. f (suc i)) id t (handle-IsFine (f 0) (departed j) rest s e fine)
          (handle-IsLeaving (f 0) (departed j) rest id s e fine leaving) (rw (e, drain) at empty))
]

-- From every state that the supervisor reaches within 2^64 - 2 steps, whatever fails while the
-- events are handled, the loop comes to the end of the queue after finitely many events, if nothing
-- new arrives, though a failed write adds to it; then every server that is connected knows exactly
-- the other slugs of its group, and a connection whose departure was queued is gone.
pub settles :
    {base : FilePath} {fs : FileSystem} {n : ℕ} {s : State}
    → n + 1 < u64_mod
    → Reach base fs n s
    → (f : ℕ → Faults)
    → (k : ℕ) × let t = drain f k s in
        (t.events ≡ [])
        × ((id : ConnId) (rec : ConnRecord)
            → HashMap.get id t.conns ≡ some rec
            → (slug : Text)
            → view rec.write_half t.sent slug
              ≡ (is_registered t rec.group slug && not (slug == rec.slug)))
        × ((id : ConnId) (rec : ConnRecord)
            → HashMap.get id s.conns ≡ some rec
            → In (departed id) s.events
            → HashMap.get id t.conns ≡ none)
settles {s = s} small r f =
    let sound = Reach-IsSound (omega (arith, small)) r in
    let fine : IsFine s = (
      omega (arith, small, Reach-count r),
      record {
        inv = sound.inv;
        separate = sound.separate;
        informed = sound.informed;
        counted = omega arith;
      },
    ) in
    let (k, empty) =
      ends (suc (waiting s.events)) (suc (length s.conns)) (suc (length s.events)) f s (omega arith)
        (omega arith) (omega arith) in
    (
      k,
      (
        empty,
        λ id rec held. elim ((drain-IsFine k f s fine).1.informed id rec held) [
          | inl knows ↦ knows
          | inr queued ↦ absurd (rw empty at queued)
        ],
        λ id rec held queued.
            drain-gone k f id s fine (sound.inv.below id rec held, inr queued) empty,
      ),
    )
