-- ===== src/Supervisor/Registry.antt =====
-- crossbridge-supervisor/src/lib.rs: what the supervisor promises, as a registry that servers join
-- and leave, with its tables, streams, directories and failures left out.
use native.Mathlib.Nat.{mod-eq_of_lt}
use crossbridge.Prelude.{
  nat_eq_iff, Bool, true, false, List, [], ◌∷◌, sym, ap, ◌∙◌, Result-cases, Bool-cases, ok, err, ℕ,
  ◌+◌, ◌<◌, ◌≡◌, ◌&&◌, ◌==◌, if◌then◌else◌, refl, inl, inr, arith, Option, none, some, Option-cases,
  nat_has_eq,
}
use crossbridge.Prelude.Text.{Text, text_has_eq, text_eq_iff}
use crossbridge.Prelude.HashMap
use crossbridge.Prelude.FilePath.{FilePath}
use crossbridge.Prelude.FileSystem.{FileSystem}
use crossbridge.Protocol.{Register}
use crossbridge.Supervisor.{
  ConnId, StreamId, ConnRecord, registered, departed, State, Faults, u64_mod, init, handle_event,
  handle_registration, handle_departure, group_map, try_create_dir, slug_dir, is_registered, enroll,
}
use crossbridge.Supervisor.Members.{member, member-enter}
use crossbridge.Supervisor.Registration.{
  registration_outcome, Accepts, IsUnchanged, registration_cases, accepted_lem, ack_of,
}
use crossbridge.Supervisor.Departure.{departure_effect, departure_unknown, departure_queues}
use crossbridge.Supervisor.Invariant.{Inv, free-member}
use crossbridge.Supervisor.Schedule.{Step, connect, hang_up, handle, Reach, here, next}
use crossbridge.Supervisor.Schedule.Reachable.{Reach-IsSound}

-- Which connection holds a slug of a group, and the number of the next one.
pub record Registry : Type 0 where
  pub holder : Text → Text → Option ConnId
  pub next_id : ConnId

abbrev pub empty : Registry
empty = record { holder = λ group slug. none; next_id = 0 }

-- What is asked of it: that a new connection takes a slug, with whether the system lets it, that a
-- connection gives up what it holds, or nothing.
pub data Request : Type 0 where
  join : Text → Text → Bool → Request
  leave : ConnId → Request
  idle : Request

unfoldable pub is_free : Option ConnId → Bool
is_free none = true
is_free (some id) = false

unfoldable pub holds : ConnId → Option ConnId → Bool
holds id none = false
holds id (some j) = j == id

-- A slug is taken if it is free and only then, and a connection that leaves holds nothing any more.
unfoldable pub carry_out : Request → Registry → Registry
carry_out (join group slug served) r =
    if is_free (r.holder group slug) && served
    then record {
      holder = λ g s. if group == g && slug == s then some r.next_id else r.holder g s;
      next_id = r.next_id + 1;
    }
    else r
carry_out (leave id) r = record r {
  holder = λ g s. if holds id (r.holder g s) then none else r.holder g s;
}
carry_out idle r = r

-- The newest first.
unfoldable pub carry_out_all : List Request → Registry
carry_out_all [] = empty
carry_out_all (q ∷ qs) = carry_out q (carry_out_all qs)

-- The directory can be made and the Ack goes out.
unfoldable pub serves : Faults → StreamId → Register → State → Bool
serves f stream reg s = elim (try_create_dir f (slug_dir s reg.slug) s.fs) [
  | err e ↦ false
  | ok fs ↦ elim (f.write stream (ack_of s reg)) [ none ↦ true | some e ↦ false ]
]

-- What a step of the event loop asks of the registry.
unfoldable pub request_of : {s t : State} → Step s t → Request
request_of (connect stream reg new) = idle
request_of (hang_up id watched) = idle
request_of {s} (handle f (registered stream reg) es q) =
    join reg.group reg.slug (serves f stream reg s)
request_of (handle f (departed id) es q) = leave id

unfoldable pub requests :
    {base : FilePath} {fs : FileSystem} {n : ℕ} {s : State} → Reach base fs n s → List Request
requests here = []
requests (next r st) = request_of st ∷ requests r

-- What the state of the supervisor stands for.
unfoldable pub registry : State → Registry
registry s = record { holder = member s.groups; next_id = s.next_id }

Registry-ext :
    (r r' : Registry)
    → ((g s : Text) → r.holder g s ≡ r'.holder g s)
    → r.next_id ≡ r'.next_id
    → r ≡ r'
Registry-ext r r' h k = λ i. record { holder = λ g s. h g s i; next_id = k i }

member-is_registered :
    (s : State) (group slug : Text)
    → is_registered s group slug ≡ true
    → is_free (member s.groups group slug) ≡ false
unfolding is_registered HashMap.contains_key is_free
member-is_registered s group slug h = elim (Option-cases (member s.groups group slug)) [
  | inl e ↦ absurd (ground (arith, e, h))
  | inr (id, e) ↦ rw e refl
]

module _ (f : Faults) (stream : StreamId) (reg : Register) (s : State)
    (small : s.next_id + 1 < u64_mod) where
  Accepts-changes :
      (fs : FileSystem)
      → Accepts f stream reg s fs
      → IsUnchanged stream s (handle_registration f stream reg s)
      → ⊥
  unfolding enroll
  Accepts-changes fs a u =
      let next_lem = ap (λ (t : State). t.next_id) (accepted_lem f stream reg s fs a) in
      omega (arith, u.same_next_id, next_lem, mod-eq_of_lt small)

  Accepts-serves : (fs : FileSystem) → Accepts f stream reg s fs → serves f stream reg s ≡ true
  unfolding serves
  Accepts-serves fs a = ground (arith, a.makes_dir, a.acked)

  serves-Accepts :
      is_registered s reg.group reg.slug ≡ false
      → serves f stream reg s ≡ true
      → (fs : FileSystem) × Accepts f stream reg s fs
  unfolding serves
  serves-Accepts free h = elim (Result-cases (try_create_dir f (slug_dir s reg.slug) s.fs)) [
    | inr (e, made) ↦ absurd (ground (arith, made, h))
    | inl (fs, made) ↦ elim (Option-cases (f.write stream (ack_of s reg))) [
      | inl acked ↦ (fs, record { free = free; makes_dir = made; acked = acked })
      | inr (e, lost) ↦ absurd (ground (arith, made, lost, h))
    ]
  ]

  refused :
      IsUnchanged stream s (handle_registration f stream reg s)
      → (is_free (member s.groups reg.group reg.slug) && serves f stream reg s) ≡ false
  refused u = elim (Bool-cases (is_registered s reg.group reg.slug)) [
    | inl taken ↦ ground (arith, member-is_registered s reg.group reg.slug taken)
    | inr free ↦ elim (Bool-cases (serves f stream reg s)) [
      | inr no_service ↦ ground (arith, no_service)
      | inl served ↦ let (fs, a) = serves-Accepts free served in absurd (Accepts-changes fs a u)
    ]
  ]

  registration_refines :
      registry (handle_registration f stream reg s)
      ≡ carry_out (join reg.group reg.slug (serves f stream reg s)) (registry s)
  unfolding registry carry_out is_free
  registration_refines = elim (registration_cases f stream reg s) [
    | inl u ↦ rw (refused u) (Registry-ext _ _ (λ g t. rw u.same_groups refl) u.same_next_id)
    | inr (fs, a) ↦ elim (registration_outcome f stream reg s).0 [
      | inl u ↦ absurd (Accepts-changes fs a u)
      | inr e ↦
          rw (free-member s reg.group reg.slug e.was_free, Accepts-serves fs a)
            (Registry-ext _ _
              (λ g t. rw e.groups_lem (member-enter reg.group reg.slug s.next_id s.groups g t))
              (omega (arith, e.next_id_lem)))
    ]
  ]

departure_refines :
    (f : Faults) (id : ConnId) (s : State)
    → Inv s
    → registry (handle_departure f id s) ≡ carry_out (leave id) (registry s)
unfolding registry carry_out holds
departure_refines f id s v = elim (Option-cases (HashMap.get id s.conns)) [
  | inl gone ↦ rw (departure_unknown f id s gone) (Registry-ext _ _ (λ g t. without g t gone) refl)
  | inr (rec, e) ↦
      Registry-ext _ _
        (λ g t.
          (departure_effect f id rec s e).0 g t
          ∙ ap (λ b. if b then none else member s.groups g t) (held g t rec e))
        (departure_queues f id s).2
]
  where
    held :
        (g t : Text) (rec : ConnRecord)
        → HashMap.get id s.conns ≡ some rec
        → (rec.group == g && rec.slug == t) ≡ holds id (member s.groups g t)
    held g t rec e = elim (Bool-cases (rec.group == g && rec.slug == t)) [
      | inl same ↦
          let at : member s.groups g t ≡ some id =
            ground (
              arith,
              same,
              v.is_member id rec e,
              text_eq_iff rec.group g,
              text_eq_iff rec.slug t,
            ) in
          rw (same, at) (sym ((nat_eq_iff id id).1 refl))
      | inr other ↦ elim (Option-cases (member s.groups g t)) [
        | inl n ↦ ground (arith, other, n)
        | inr (j, n) ↦ elim (Bool-cases (j == id)) [
          | inr apart ↦ ground (arith, other, n, apart)
          | inl same ↦
              let (rec', e', a, b) = v.has_conn g t j n in
              absurd (
                ground (
                  arith,
                  other,
                  same,
                  e,
                  e',
                  a,
                  b,
                  nat_eq_iff j id,
                  text_eq_iff rec.group g,
                  text_eq_iff rec.slug t,
                ))
        ]
      ]
    ]

    without :
        (g t : Text)
        → HashMap.get id s.conns ≡ none
        → member s.groups g t
          ≡ (if holds id (member s.groups g t) then none else member s.groups g t)
    without g t gone = elim (Option-cases (member s.groups g t)) [
      | inl n ↦ ground (arith, n)
      | inr (j, n) ↦
          let (rec, e, a, b) = v.has_conn g t j n in
          elim (Bool-cases (j == id)) [
            | inl same ↦ absurd (ground (arith, same, e, gone, nat_eq_iff j id))
            | inr apart ↦ ground (arith, n, apart)
          ]
    ]

Step-refines :
    {s t : State}
    → s.next_id + 1 < u64_mod
    → Inv s
    → (st : Step s t) → registry t ≡ carry_out (request_of st) (registry s)
unfolding request_of
Step-refines small v (connect stream reg new) = unfold registry carry_out in refl
Step-refines small v (hang_up id watched) = unfold registry carry_out in refl
Step-refines {s} small v (handle f (registered stream reg) es q) =
    unfold handle_event serves registry carry_out slug_dir in
    registration_refines f stream reg (record s { events = es }) small
Step-refines {s} small v (handle f (departed id) es q) =
    unfold handle_event registry carry_out in departure_refines f id (record s { events = es }) v

-- The supervisor implements the registry: whatever connects, hangs up or fails, the registry that
-- its state stands for is what the registry makes of the requests of the steps, one after another,
-- from the empty one. A registration that is handled asks for its slug, which the new connection
-- gets if it is free and the directory and the Ack did not fail, and only then; a departure that is
-- handled asks for leave, and the connection holds nothing after it; other steps ask nothing.
-- (Within 2^64 - 1 steps, so that the connection counter has not wrapped.)
pub Reach-refines :
    {base : FilePath} {fs : FileSystem} {n : ℕ} {s : State}
    → n < u64_mod
    → (reach : Reach base fs n s) → registry s ≡ carry_out_all (requests reach)
unfolding requests carry_out_all
Reach-refines {base} {fs} small here = unfold registry init group_map HashMap.get in refl
Reach-refines small (next r st) =
    let sound = Reach-IsSound (omega (arith, small)) r in
    Step-refines (omega (arith, small, sound.counted)) sound.inv st
    ∙ ap (carry_out (request_of st)) (Reach-refines (omega (arith, small)) r)
