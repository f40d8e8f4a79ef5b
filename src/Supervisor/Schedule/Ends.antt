-- ===== src/Supervisor/Schedule/Ends.antt =====
-- crossbridge-supervisor/src/lib.rs, run: the event loop comes to the end of its events.
use crossbridge.Prelude.{
  ℕ, zero, suc, ◌+◌, ◌<◌, ◌≤◌, ◌≡◌, inl, inr, refl, sym, ap, ◌∙◌, arith, some, List, [], ◌∷◌, ◌++◌,
  append-nil, length, Option-cases, nat_has_eq,
}
use crossbridge.Prelude.Text.{text_has_eq}
use crossbridge.Prelude.HashMap
use crossbridge.Prelude.HashMap.{HashMap}
use crossbridge.Prelude.HashMap.Laws.{length-remove}
use crossbridge.Prelude.FilePath.{FilePath}
use crossbridge.Prelude.FileSystem.{FileSystem}
use crossbridge.Protocol.{Register}
use crossbridge.Supervisor.{
  ConnId, StreamId, ConnRecord, Event, registered, departed, State, Faults, departures, init,
  handle_event, handle_registration, depart,
}
use crossbridge.Supervisor.Registration.{registration_outcome}
use crossbridge.Supervisor.Departure.{departure_queues, departure_unknown, departs_lem}
use crossbridge.Supervisor.Schedule.{connect, hang_up, handle, Reach, here, next, drain}
use crossbridge.Supervisor.Schedule.Reachable.{next_id-le}

-- The registrations that wait.
abbrev pub waiting : List Event → ℕ
waiting [] = 0
waiting (registered stream reg ∷ es) = suc (waiting es)
waiting (departed id ∷ es) = waiting es

waiting-departures :
    (es : List Event) (ids : List ConnId) → waiting (es ++ departures ids) ≡ waiting es
waiting-departures [] [] = refl
waiting-departures [] (i ∷ ids) = waiting-departures [] ids
waiting-departures (registered stream reg ∷ es) ids = ap suc (waiting-departures es ids)
waiting-departures (departed id ∷ es) ids = waiting-departures es ids

waiting-connect :
    (es : List Event) (stream : StreamId) (reg : Register)
    → waiting (es ++ registered stream reg ∷ []) ≡ suc (waiting es)
waiting-connect [] stream reg = refl
waiting-connect (registered t r ∷ es) stream reg = ap suc (waiting-connect es stream reg)
waiting-connect (departed id ∷ es) stream reg = waiting-connect es stream reg

registration_queues :
    (f : Faults) (stream : StreamId) (reg : Register) (s : State)
    → (failed : List ConnId) × ((handle_registration f stream reg s).events
        ≡ s.events ++ departures failed)
registration_queues f stream reg s = elim (registration_outcome f stream reg s).0 [
  | inl u ↦ ([], u.same_events ∙ sym (append-nil s.events))
  | inr e ↦ e.queued
]

-- What handling an event adds to the queue is departures.
event_queues :
    (f : Faults) (e : Event) (s : State)
    → (failed : List ConnId) × ((handle_event f e s).events ≡ s.events ++ departures failed)
unfolding handle_event
event_queues f (registered stream reg) s = registration_queues f stream reg s
event_queues f (departed id) s = let (failed, lem, _) = departure_queues f id s in (failed, lem)

pub waiting-handle_event :
    (f : Faults) (e : Event) (s : State) → waiting (handle_event f e s).events ≡ waiting s.events
waiting-handle_event f e s =
    let (failed, lem) = event_queues f e s in rw lem (waiting-departures s.events failed)

pub event-next_id :
    (f : Faults) (e : Event) (s : State)
    → (handle_event f e s).next_id + waiting s.events ≤ s.next_id + waiting (e ∷ s.events)
unfolding handle_event
event-next_id f (registered stream reg) s = omega (arith, next_id-le f stream reg s)
event-next_id f (departed id) s = omega (arith, (departure_queues f id s).2)

-- A step counts for one registration at most, whether it waits or was handled.
pub Reach-count :
    {base : FilePath} {fs : FileSystem} {n : ℕ} {s : State}
    → Reach base fs n s
    → s.next_id + waiting s.events ≤ n
Reach-count here = unfold init in omega arith
Reach-count (next {s = s} r (connect stream reg new)) =
    omega (arith, Reach-count r, waiting-connect s.events stream reg)
Reach-count (next {s = s} r (hang_up id watched)) =
    omega (arith, Reach-count r, waiting-departures s.events (id ∷ []))
Reach-count (next {s = s} r (handle f e es q)) = omega (
  arith,
  Reach-count r,
  ap waiting q,
  event-next_id f e (record s { events = es }),
  waiting-handle_event f e (record s { events = es }),
)

pub data Queue (es : List Event) : Type 0 where
  done : es ≡ [] → Queue es
  registers :
      (stream : StreamId) (reg : Register) (rest : List Event)
      → es ≡ registered stream reg ∷ rest
      → Queue es
  departs : (id : ConnId) (rest : List Event) → es ≡ departed id ∷ rest → Queue es

pub queue_of : (es : List Event) → Queue es
queue_of [] = done refl
queue_of (registered stream reg ∷ es) = registers stream reg es refl
queue_of (departed id ∷ es) = departs id es refl

-- The number of rounds after which the queue is empty.
abbrev pub Ends : (ℕ → Faults) → State → Type 0
Ends f s = (k : ℕ) × ((drain f k s).events ≡ [])

Ends-next :
    (f : ℕ → Faults) (s : State) (e : Event) (es : List Event)
    → s.events ≡ e ∷ es
    → Ends (λ i. f (suc i)) (handle_event (f 0) e (record s { events = es }))
    → Ends f s
unfolding drain
Ends-next f s e es q (k, h) = (suc k, rw (q, drain) h)

conns-length :
    (f : Faults) (id : ConnId) (rec : ConnRecord) (s : State)
    → HashMap.get id s.conns ≡ some rec
    → length (handle_event f (departed id) s).conns < length s.conns
unfolding handle_event depart
conns-length f id rec s e = rw (departs_lem f id rec s e) (length-remove id rec s.conns e)

-- By the registrations that wait, then the connections, then the events: a registration is used up,
-- a departure removes a connection or, if there is none, adds nothing to the queue.
pub ends :
    (r c q : ℕ) (f : ℕ → Faults) (s : State)
    → waiting s.events < r
    → length s.conns < c
    → length s.events < q
    → Ends f s
ends zero c q f s hr hc hq = absurd (omega arith)
ends (suc r) zero q f s hr hc hq = absurd (omega arith)
ends (suc r) (suc c) zero f s hr hc hq = absurd (omega arith)
ends (suc r) (suc c) (suc q) f s hr hc hq = elim (queue_of s.events) [
  | done e ↦ (0, unfold drain in e)
  | registers stream reg rest e ↦
      let t : State = handle_event (f 0) (registered stream reg) (record s { events = rest }) in
      Ends-next f s (registered stream reg) rest e (
        ends r (suc (length t.conns)) (suc (length t.events)) (λ i. f (suc i)) t
          (omega (
            arith,
            ap waiting e,
            waiting-handle_event (f 0) (registered stream reg) (record s { events = rest }),
          ))
          (omega arith) (omega arith))
  | departs id rest e ↦
      let s' : State = record s { events = rest } in
      let t : State = handle_event (f 0) (departed id) s' in
      let same = waiting-handle_event (f 0) (departed id) s' in
      Ends-next f s (departed id) rest e (elim (Option-cases (HashMap.get id s.conns)) [
        | inr (rec, held) ↦
            ends (suc r) c (suc (length t.events)) (λ i. f (suc i)) t
              (omega (arith, ap waiting e, same)) (omega (arith, conns-length (f 0) id rec s' held))
              (omega arith)
        | inl gone ↦
            let idle : t ≡ s' = unfold handle_event in departure_unknown (f 0) id s' gone in
            ends (suc r) (suc c) q (λ i. f (suc i)) t (omega (arith, ap waiting e, same))
              (omega (arith, hc, ap (λ x. length x.conns) idle))
              (omega (arith, ap length e, ap (λ x. length x.events) idle))
      ])
]
