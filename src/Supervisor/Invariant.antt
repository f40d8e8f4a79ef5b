-- ===== src/Supervisor/Invariant.antt =====
-- crossbridge-supervisor/src/lib.rs: the two tables of the state agree, after every event.
use crossbridge.Prelude.{
  ◌+◌, ◌%◌, ◌<◌, false, ◌&&◌, none, some, ◌≡◌, inl, inr, ◌==◌, arith, Bool-cases, Option-cases,
  nat_has_eq,
}
use crossbridge.Prelude.Text.{Text, text_has_eq, text_eq_iff}
use crossbridge.Prelude.HashMap
use crossbridge.Prelude.HashMap.{HashMap}
use crossbridge.Prelude.HashMap.Laws.{get-insert, get-remove, contains_key-none}
use crossbridge.Prelude.FilePath.{FilePath}
use crossbridge.Prelude.FileSystem.{FileSystem}
use crossbridge.Protocol.{Register}
use crossbridge.Supervisor.{
  ConnId, StreamId, ConnRecord, Event, registered, departed, Groups, State, Faults, u64_mod,
  group_map, is_registered, leave, init, handle_registration, handle_departure, handle_event,
  depart,
}
use crossbridge.Supervisor.Members.{
  member, enter, member-enter, member-leave, IsTidy, enter-IsTidy, leave-IsTidy,
}
use crossbridge.Supervisor.Registration.{record_of, registration_outcome}
use crossbridge.Supervisor.Departure.{departs_lem, departure_unknown}

-- `groups` and `conns` name the same connections, each under a number below `next_id`.
pub record IsConsistent (groups : Groups) (conns : HashMap ConnId ConnRecord) (next_id : ConnId)
    : Type 0 where
  pub tidy : IsTidy groups
  pub has_conn :
      (group slug : Text) (id : ConnId)
      → member groups group slug ≡ some id
      → (rec : ConnRecord) × (HashMap.get id conns ≡ some rec)
        × (rec.slug ≡ slug)
        × (rec.group ≡ group)
  pub is_member :
      (id : ConnId) (rec : ConnRecord)
      → HashMap.get id conns ≡ some rec
      → member groups rec.group rec.slug ≡ some id
  pub below : (id : ConnId) (rec : ConnRecord) → HashMap.get id conns ≡ some rec → id < next_id

abbrev pub Inv : State → Type 0
Inv s = IsConsistent s.groups s.conns s.next_id

module _ (G : Groups) (C : HashMap ConnId ConnRecord) (n : ConnId) (c : IsConsistent G C n) where
  pub enter-IsConsistent :
      (stream : StreamId) (reg : Register)
      → member G reg.group reg.slug ≡ none
      → n + 1 < u64_mod
      → IsConsistent
          (enter reg.group reg.slug n G)
          (HashMap.insert n (record_of stream reg) C)
          ((n + 1) % u64_mod)
  enter-IsConsistent stream reg free small = record {
    tidy = enter-IsTidy reg.group reg.slug n G c.tidy;
    has_conn = λ group slug id h. elim (Bool-cases (reg.group == group && reg.slug == slug)) [
      | inl new ↦ (
        record_of stream reg,
        ground (
          arith,
          h,
          new,
          member-enter reg.group reg.slug n G group slug,
          get-insert n id (record_of stream reg) C,
        ),
        ground (arith, new, text_eq_iff reg.slug slug),
        ground (arith, new, text_eq_iff reg.group group),
      )
      | inr old ↦
          let kept : member G group slug ≡ some id =
            ground (arith, h, old, member-enter reg.group reg.slug n G group slug) in
          let (rec, found, slug_lem, group_lem) = c.has_conn group slug id kept in
          (
            rec,
            ground (arith, found, c.below id rec found, get-insert n id (record_of stream reg) C),
            slug_lem,
            group_lem,
          )
    ];
    is_member = λ id rec h. ground (
      arith,
      h,
      free,
      member-enter reg.group reg.slug n G rec.group rec.slug,
      get-insert n id (record_of stream reg) C,
      c.is_member id rec,
      text_eq_iff reg.group rec.group,
      text_eq_iff reg.slug rec.slug,
      text_eq_iff reg.group reg.group,
      text_eq_iff reg.slug reg.slug,
    );
    below = λ id rec h. ground (arith, h, get-insert n id (record_of stream reg) C, c.below id rec);
  }

  pub leave-IsConsistent :
      (id : ConnId) (rec : ConnRecord)
      → HashMap.get id C ≡ some rec
      → IsConsistent (leave rec.group rec.slug G) (HashMap.remove id C) n
  leave-IsConsistent id rec held = record {
    tidy = leave-IsTidy rec.group rec.slug G c.tidy;
    has_conn = λ group slug j h.
        let kept : member G group slug ≡ some j =
          ground (arith, h, member-leave rec.group rec.slug G group slug) in
        let (rec', found, slug_lem, group_lem) = c.has_conn group slug j kept in
        (
          rec',
          ground (
            arith,
            h,
            found,
            held,
            slug_lem,
            group_lem,
            member-leave rec.group rec.slug G group slug,
            get-remove id j C,
            text_eq_iff rec.group group,
            text_eq_iff rec.slug slug,
          ),
          slug_lem,
          group_lem,
        );
    is_member = λ j rec' h. ground (
      arith,
      h,
      held,
      c.is_member id rec held,
      c.is_member j rec',
      member-leave rec.group rec.slug G rec'.group rec'.slug,
      get-remove id j C,
      text_eq_iff rec.group rec'.group,
      text_eq_iff rec.slug rec'.slug,
    );
    below = λ j rec' h. ground (arith, h, get-remove id j C, c.below j rec');
  }

pub free-member :
    (s : State) (g slug : Text) → is_registered s g slug ≡ false → member s.groups g slug ≡ none
unfolding is_registered
free-member s g slug h = contains_key-none slug (group_map g s.groups) h

registration-Inv :
    (f : Faults) (stream : StreamId) (reg : Register) (s : State)
    → s.next_id + 1 < u64_mod
    → Inv s
    → Inv (handle_registration f stream reg s)
registration-Inv f stream reg s small v = elim (registration_outcome f stream reg s).0 [
  | inl u ↦ rw (u.same_groups, u.same_conns, u.same_next_id) v
  | inr e ↦
      rw (e.groups_lem, e.conns_lem, e.next_id_lem)
        (enter-IsConsistent s.groups s.conns s.next_id v stream reg
          (free-member s reg.group reg.slug e.was_free) small)
]

departure-Inv : (f : Faults) (id : ConnId) (s : State) → Inv s → Inv (handle_departure f id s)
unfolding depart
departure-Inv f id s v = elim (Option-cases (HashMap.get id s.conns)) [
  | inl gone ↦ rw (departure_unknown f id s gone) v
  | inr (rec, e) ↦
      rw (departs_lem f id rec s e) (leave-IsConsistent s.groups s.conns s.next_id v id rec e)
]

-- Every event, whatever fails while it is handled, keeps the two tables in step: a slug of a group
-- stands for one connection, that connection's record names that slug and group, ids are below
-- `next_id`, and no group is empty. (As long as the counter has not reached 2^64 - 1.)
pub handle_event-Inv :
    (f : Faults) (e : Event) (s : State)
    → s.next_id + 1 < u64_mod
    → Inv s
    → Inv (handle_event f e s)
unfolding handle_event
handle_event-Inv f (registered stream reg) s small v = registration-Inv f stream reg s small v
handle_event-Inv f (departed id) s small v = departure-Inv f id s v

pub init-Inv : (base : FilePath) (fs : FileSystem) → Inv (init base fs)
unfolding init group_map HashMap.get
init-Inv base fs = record {
  tidy = record { distinct = λ g. tt; inhabited = λ g e. cc };
  has_conn = λ g slug id e. absurd (cc);
  is_member = λ id rec e. absurd (cc);
  below = λ id rec e. absurd (cc);
}
