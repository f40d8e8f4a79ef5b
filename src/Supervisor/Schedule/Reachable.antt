-- ===== src/Supervisor/Schedule/Reachable.antt =====
-- What holds in every state that the supervisor can reach.
use crossbridge.Prelude.{
  ℕ, zero, suc, ◌+◌, ◌<◌, ◌≤◌, ◌≡◌, ◌⊎◌, inl, inr, refl, List, [], ◌∷◌, ◌++◌, In, In-append_left,
  In-append_cases, arith, nat_has_eq, some, not, ◌&&◌, ◌==◌,
}
use crossbridge.Prelude.Text.{Text, text_has_eq}
use crossbridge.Prelude.HashMap
use crossbridge.Prelude.FilePath.{FilePath}
use crossbridge.Prelude.FileSystem.{FileSystem}
use crossbridge.Protocol.{Register}
use crossbridge.Supervisor.{
  ConnId, StreamId, ConnRecord, Event, registered, departed, State, Faults, u64_mod, init,
  handle_event, handle_registration, is_registered,
}
use crossbridge.Supervisor.Registration.{registration_outcome}
use crossbridge.Supervisor.Departure.{departure_queues}
use crossbridge.Supervisor.Invariant.{Inv, init-Inv, handle_event-Inv}
use crossbridge.Supervisor.Views.{HasOwnStreams, IsInformed, view}
use crossbridge.Supervisor.Views.Informed.{registration-IsInformed}
use crossbridge.Supervisor.Views.Departed.{departure-IsInformed}
use crossbridge.Supervisor.Schedule.{Step, connect, hang_up, handle, Reach, here, next}
use crossbridge.Supervisor.Schedule.Streams.{
  IsSeparate, Once-connect, Once-append, IsWaiting-before, registration-IsSeparate,
  departure-IsSeparate,
}

-- All of it, after at most `n` steps; `es` are the events that are still to be handled.
pub record IsSound (n : ℕ) (es : List Event) (s : State) : Type 0 where
  pub inv : Inv s
  pub separate : IsSeparate s.conns es
  pub informed : IsInformed es s
  pub counted : s.next_id ≤ n

init-IsSound : (base : FilePath) (fs : FileSystem) → IsSound zero [] (init base fs)
unfolding init HashMap.get
init-IsSound base fs = record {
  inv = init-Inv base fs;
  separate = record { own = λ i j r r' h. absurd (cc); unused = λ st w. absurd w.1; once = tt };
  informed = λ i r h. absurd (cc);
  counted = omega arith;
}

pub next_id-le :
    (f : Faults) (stream : StreamId) (reg : Register) (s : State)
    → (handle_registration f stream reg s).next_id ≤ s.next_id + 1
next_id-le f stream reg s = elim (registration_outcome f stream reg s).0 [
  | inl u ↦ omega (arith, u.same_next_id)
  | inr e ↦ omega (arith, e.next_id_lem)
]

pub handle_event-IsSound :
    (f : Faults) (e : Event) (s : State) (n : ℕ)
    → suc n < u64_mod
    → IsSound n (e ∷ s.events) s
    → IsSound (suc n) (handle_event f e s).events (handle_event f e s)
unfolding handle_event
handle_event-IsSound f (registered stream reg) s n small p = record {
  inv = handle_event-Inv f (registered stream reg) s (omega (arith, p.counted)) p.inv;
  separate = registration-IsSeparate f s stream reg p.separate;
  informed =
      registration-IsInformed f stream reg s p.inv p.separate.own
        (p.separate.unused stream (reg, inl refl))
        (λ i r h. elim (p.informed i r h) [
          | inl knows ↦ inl knows
          | inr (inl same) ↦ absurd (cc)
          | inr (inr q) ↦ inr q
        ]);
  counted = omega (arith, p.counted, next_id-le f stream reg s);
}
handle_event-IsSound f (departed id) s n small p = record {
  inv = handle_event-Inv f (departed id) s (omega (arith, p.counted)) p.inv;
  separate = departure-IsSeparate f s id p.separate;
  informed = departure-IsInformed f id s p.inv p.separate.own p.informed;
  counted = omega (arith, p.counted, (departure_queues f id s).2);
}

queue-IsInformed :
    (s t : State) (es : List Event)
    → (t.groups ≡ s.groups) × (t.conns ≡ s.conns) × (t.sent ≡ s.sent)
    → IsInformed s.events s
    → IsInformed (s.events ++ es) t
unfolding is_registered
queue-IsInformed s t es (g, c, w) informed i r h = elim (informed i r (rw c at h)) [
  | inl knows ↦ inl (λ slug. rw (g, w) (knows slug))
  | inr q ↦ inr (In-append_left (departed i) s.events es q)
]

-- The head of the queue is taken off to be handled.
pub IsSound-head :
    {s : State} {n : ℕ} {e : Event} {es : List Event}
    → s.events ≡ e ∷ es
    → IsSound n s.events s
    → IsSound n (e ∷ es) (record s { events = es })
unfolding is_registered
IsSound-head q p = record {
  inv = p.inv;
  separate = rw q at p.separate;
  informed = rw q at p.informed;
  counted = p.counted;
}

Step-IsSound :
    {s t : State} (n : ℕ)
    → suc n < u64_mod
    → Step s t
    → IsSound n s.events s
    → IsSound (suc n) t.events t
Step-IsSound {s} n small (connect stream reg new) p = record {
  inv = p.inv;
  separate = record {
    own = p.separate.own;
    unused = λ st w.
        elim (In-append_cases (registered st w.0) s.events (registered stream reg ∷ []) w.1) [
          | inl old ↦ p.separate.unused st (w.0, old)
          | inr (inl same) ↦ λ i r h share. ground (arith, same, share, new.0 i r h)
          | inr (inr none_left) ↦ absurd none_left
        ];
    once = Once-connect stream reg s.events new.1 p.separate.once;
  };
  informed = queue-IsInformed s _ (registered stream reg ∷ []) (refl, refl, refl) p.informed;
  counted = omega (arith, p.counted);
}
Step-IsSound {s} n small (hang_up id watched) p = record {
  inv = p.inv;
  separate = record {
    own = p.separate.own;
    unused = λ st w. p.separate.unused st (IsWaiting-before st s.events (id ∷ []) w);
    once = Once-append s.events (id ∷ []) p.separate.once;
  };
  informed = queue-IsInformed s _ (departed id ∷ []) (refl, refl, refl) p.informed;
  counted = omega (arith, p.counted);
}
Step-IsSound {s} n small (handle f e es q) p =
    handle_event-IsSound f e (record s { events = es }) n small (IsSound-head q p)

pub Reach-IsSound :
    {base : FilePath} {fs : FileSystem} {n : ℕ} {s : State}
    → n < u64_mod
    → Reach base fs n s
    → IsSound n s.events s
Reach-IsSound {base} {fs} small here = unfold init in init-IsSound base fs
Reach-IsSound small (next {n = n} r st) =
    Step-IsSound n small st (Reach-IsSound (omega (arith, small)) r)

-- In every state of the supervisor, whatever connects, hangs up or fails, the two tables name the
-- same connections, a slug of a group stands for one of them, and no two share a stream. (Within
-- 2^64 - 1 steps, so that the connection counter has not wrapped.)
pub Reach-Inv :
    {base : FilePath} {fs : FileSystem} {n : ℕ} {s : State}
    → n < u64_mod
    → Reach base fs n s
    → Inv s × HasOwnStreams s.conns
Reach-Inv small r = let p = Reach-IsSound small r in (p.inv, p.separate.own)

-- In every state that the supervisor reaches within 2^64 - 1 steps, whatever connects, hangs up
-- or fails, a connected server that replays the messages on its stream (the Ack sets the peers,
-- PeerJoined adds one, PeerLeft takes one away) has exactly the other slugs that are registered
-- in its group, or its own departure is among the events still to be handled.
pub Reach-IsInformed :
    {base : FilePath} {fs : FileSystem} {n : ℕ} {s : State}
    → n < u64_mod
    → Reach base fs n s
    → (id : ConnId) (rec : ConnRecord) → HashMap.get id s.conns ≡ some rec
    → ((slug : Text)
        → view rec.write_half s.sent slug
          ≡ (is_registered s rec.group slug && not (slug == rec.slug)))
      ⊎ In (departed id) s.events
Reach-IsInformed small r = (Reach-IsSound small r).informed
