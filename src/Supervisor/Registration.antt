-- ===== src/Supervisor/Registration.antt =====
-- crossbridge-supervisor/src/lib.rs, handle_registration: its outcomes, the Ack and PeerJoined.
use crossbridge.Prelude.{
  ◌+◌, ◌%◌, true, false, none, some, List, ◌∷◌, ◌++◌, ◌≡◌, ◌⊎◌, ◌↔◌, inl, inr, refl, arith, In,
  Bool-cases, Option-cases, ok, Result-cases, nat_has_eq,
}
use crossbridge.Prelude.Text.{Text, text_has_eq}
use crossbridge.Prelude.HashMap
use crossbridge.Prelude.HashMap.{HashMap}
use crossbridge.Prelude.HashMap.Laws.{In-keys-get, In-keys_of_get, In-values_of_get}
use crossbridge.Prelude.FileSystem.{FileSystem}
use crossbridge.Protocol.{
  Register, SupervisorMessage, register_response, notification, ack, nack, peer_joined,
}
use crossbridge.Supervisor.{
  ConnId, StreamId, ConnRecord, departed, Log, State, Faults, u64_mod, group_map, slug_dir,
  write_message, departures, try_create_dir, reject, enroll, acknowledge, is_registered,
  handle_registration, duplicate_reason, directory_reason,
}
use crossbridge.Supervisor.Members.{member, enter}
use crossbridge.Supervisor.Delivery.{In-departures, deliver_keeps, deliver_reaches, deliver_only}

abbrev pub ack_of : State → Register → SupervisorMessage
ack_of s reg = register_response (ack (HashMap.keys (group_map reg.group s.groups)))

abbrev pub record_of : StreamId → Register → ConnRecord
record_of stream reg = record { slug = reg.slug; group = reg.group; write_half = stream }

-- The registration goes through: the slug is free, its directory is there, and the Ack went out.
pub record Accepts (f : Faults) (stream : StreamId) (reg : Register) (s : State) (fs : FileSystem)
    : Type 0 where
  pub free : is_registered s reg.group reg.slug ≡ false
  pub makes_dir : try_create_dir f (slug_dir s reg.slug) s.fs ≡ ok fs
  pub acked : f.write stream (ack_of s reg) ≡ none

-- What a refused registration leaves alone.
pub record IsUnchanged (stream : StreamId) (s t : State) : Type 0 where
  pub same_groups : t.groups ≡ s.groups
  pub same_conns : t.conns ≡ s.conns
  pub same_next_id : t.next_id ≡ s.next_id
  pub same_events : t.events ≡ s.events
  pub same_watchers : t.watchers ≡ s.watchers
  pub same_base_dir : t.base_dir ≡ s.base_dir
  pub is_closed : t.closed ≡ stream ∷ s.closed
  pub only_to_stream :
      (t.sent ≡ s.sent) ⊎ ((msg : SupervisorMessage) × (t.sent ≡ (stream, msg) ∷ s.sent))

-- What an accepted one changes.
pub record IsEnrolled (stream : StreamId) (reg : Register) (s t : State) : Type 0 where
  pub groups_lem : t.groups ≡ enter reg.group reg.slug s.next_id s.groups
  pub conns_lem : t.conns ≡ HashMap.insert s.next_id (record_of stream reg) s.conns
  pub next_id_lem : t.next_id ≡ (s.next_id + 1) % u64_mod
  pub watchers_lem : t.watchers ≡ s.next_id ∷ s.watchers
  pub base_dir_lem : t.base_dir ≡ s.base_dir
  pub closed_lem : t.closed ≡ s.closed
  pub was_free : is_registered s reg.group reg.slug ≡ false
  pub queued : (failed : List ConnId) × (t.events ≡ s.events ++ departures failed)

write_only :
    (f : Faults) (stream : StreamId) (msg : SupervisorMessage) (sent : Log)
    → ((write_message f stream msg sent).1 ≡ sent)
      ⊎ ((msg' : SupervisorMessage) × ((write_message f stream msg sent).1 ≡ (stream, msg') ∷ sent))
unfolding write_message
write_only f stream msg sent = elim (Option-cases (f.write stream msg)) [
  | inl sends ↦ inr (msg, rw (sends, write_message))
  | inr (e, fails) ↦ inl (rw (fails, write_message))
]

module _ (f : Faults) (stream : StreamId) (reg : Register) (s : State) where
  reject-IsUnchanged : (reason : Text) → IsUnchanged stream s (reject f stream reason s)
  unfolding reject
  reject-IsUnchanged reason = record {
    same_groups = refl;
    same_conns = refl;
    same_next_id = refl;
    same_events = refl;
    same_watchers = refl;
    same_base_dir = refl;
    is_closed = refl;
    only_to_stream = write_only f stream (register_response (nack reason)) s.sent;
  }

  enroll-IsEnrolled :
      is_registered s reg.group reg.slug ≡ false
      → (fs : FileSystem) (sent : Log)
      → IsEnrolled stream reg s (enroll f stream reg (record s { fs = fs; sent = sent }))
  unfolding enroll enter
  enroll-IsEnrolled free fs sent = record {
    groups_lem = refl;
    conns_lem = refl;
    next_id_lem = refl;
    watchers_lem = refl;
    base_dir_lem = refl;
    closed_lem = refl;
    was_free = free;
    queued = (_, refl);
  }

  acknowledge_lost :
      (fs : FileSystem)
      → (write_message f stream (ack_of s reg) s.sent).0 ≡ false
      → IsUnchanged stream s (acknowledge f stream reg (record s { fs = fs }))
  unfolding acknowledge
  acknowledge_lost fs lost = rw lost (record {
    same_groups = refl;
    same_conns = refl;
    same_next_id = refl;
    same_events = refl;
    same_watchers = refl;
    same_base_dir = refl;
    is_closed = refl;
    only_to_stream = write_only f stream (ack_of s reg) s.sent;
  })

  write_reached :
      (write_message f stream (ack_of s reg) s.sent).0 ≡ true → f.write stream (ack_of s reg) ≡ none
  unfolding write_message
  write_reached h = ground (arith, h)

  -- Either the registration is refused, or it meets what an accepted one needs.
  pub registration_cases :
      IsUnchanged stream s (handle_registration f stream reg s)
      ⊎ ((fs : FileSystem) × Accepts f stream reg s fs)
  unfolding handle_registration
  registration_cases = elim (Bool-cases (is_registered s reg.group reg.slug)) [
    | inl taken ↦ inl (rw taken (reject-IsUnchanged (duplicate_reason reg)))
    | inr free ↦ elim (Result-cases (try_create_dir f (slug_dir s reg.slug) s.fs)) [
      | inr (e, refused) ↦ inl (rw (free, refused) (reject-IsUnchanged (directory_reason e)))
      | inl (fs, made) ↦ elim (Bool-cases (write_message f stream (ack_of s reg) s.sent).0) [
        | inr lost ↦ inl (rw (free, made) (acknowledge_lost fs lost))
        | inl reached ↦
            inr (fs, record { free = free; makes_dir = made; acked = write_reached reached })
      ]
    ]
  ]

  pub accepted_lem :
      (fs : FileSystem)
      → Accepts f stream reg s fs
      → handle_registration f stream reg s
        ≡ enroll f stream reg (record s { fs = fs; sent = (stream, ack_of s reg) ∷ s.sent })
  unfolding handle_registration acknowledge write_message
  accepted_lem fs a = rw (a.free, a.makes_dir, acknowledge) (rw (a.acked, write_message))

  duplicate-IsUnchanged :
      is_registered s reg.group reg.slug ≡ true
      → IsUnchanged stream s (handle_registration f stream reg s)
  unfolding handle_registration
  duplicate-IsUnchanged taken = rw taken (reject-IsUnchanged (duplicate_reason reg))

  -- A registration is all or nothing: either the supervisor forgets it and closes its stream, with
  -- no other stream written to, or the slug was free and is entered with a connection of its own.
  -- A slug that the group has already is always refused.
  pub registration_outcome :
      (IsUnchanged stream s (handle_registration f stream reg s)
        ⊎ IsEnrolled stream reg s (handle_registration f stream reg s))
      × (is_registered s reg.group reg.slug ≡ true
          → IsUnchanged stream s (handle_registration f stream reg s))
  registration_outcome = (
    elim registration_cases [
      | inl u ↦ inl u
      | inr (fs, a) ↦ inr (rw (accepted_lem fs a) (enroll-IsEnrolled a.free fs _))
    ],
    duplicate-IsUnchanged,
  )

module _ (f : Faults) (stream : StreamId) (reg : Register) (s : State) (fs : FileSystem) where
  -- An accepted server is entered under its slug and no other entry changes; its Ack lists exactly
  -- the slugs that the group had, its own not among them.
  pub ack_lists_members :
      Accepts f stream reg s fs
      → let t = handle_registration f stream reg s in
        let peers = HashMap.keys (group_map reg.group s.groups) in
        IsEnrolled stream reg s t
        × In (stream, register_response (ack peers)) t.sent
        × ((slug : Text)
            → In slug peers ↔ ((id : ConnId) × (member s.groups reg.group slug ≡ some id)))
        × (In reg.slug peers → ⊥)
  unfolding is_registered HashMap.contains_key
  ack_lists_members a = rw (accepted_lem f stream reg s fs a) (
    enroll-IsEnrolled f stream reg s a.free fs _,
    enroll_keeps,
    λ slug. (
      In-keys-get slug (group_map reg.group s.groups),
      λ h. In-keys_of_get slug h.0 (group_map reg.group s.groups) h.1,
    ),
    λ own.
        let (id, found) = In-keys-get reg.slug (group_map reg.group s.groups) own in
        ground (arith, found, a.free),
  )
    where
      enroll_keeps :
          In
            (stream, ack_of s reg)
            (enroll f stream reg
              (record s { fs = fs; sent = (stream, ack_of s reg) ∷ s.sent })).sent
      enroll_keeps = unfold enroll in deliver_keeps f _ s.conns _ _ _ (inl refl)

  -- When a registration is accepted, each member of the group is sent PeerJoined, or its
  -- departure is queued because the write failed; and apart from the Ack nothing else is sent,
  -- to another group least of all.
  pub registration_notifies :
      Accepts f stream reg s fs
      → let t = handle_registration f stream reg s in
        let joined = notification (peer_joined reg.slug) in
        ((slug : Text) (id : ConnId) (rec : ConnRecord)
          → member s.groups reg.group slug ≡ some id
          → HashMap.get id s.conns ≡ some rec
          → In (rec.write_half, joined) t.sent ⊎ In (departed id) t.events)
        × ((x : StreamId × SupervisorMessage)
            → In x t.sent
            → In x s.sent
              ⊎ (x ≡ (stream, ack_of s reg))
              ⊎ ((id : ConnId) × (rec : ConnRecord) × In id
                    (HashMap.values (group_map reg.group s.groups))
                  × (HashMap.get id s.conns ≡ some rec)
                  × (x ≡ (rec.write_half, joined))))
  unfolding enroll
  registration_notifies a = rw (accepted_lem f stream reg s fs a) (
    λ slug id rec held conn. In-departures id _ s.events (
        deliver_reaches f joined s.conns members start id rec
          (In-values_of_get slug id (group_map reg.group s.groups) held) conn),
    λ x h. elim (deliver_only f joined s.conns members start x h) [
      | inr new ↦ inr (inr new)
      | inl (inl own) ↦ inr (inl own)
      | inl (inr old) ↦ inl old
    ],
  )
    where
      joined : SupervisorMessage
      joined = notification (peer_joined reg.slug)

      members : List ConnId
      members = HashMap.values (group_map reg.group s.groups)

      start : Log
      start = (stream, ack_of s reg) ∷ s.sent
