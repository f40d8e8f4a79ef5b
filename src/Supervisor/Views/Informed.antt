-- ===== src/Supervisor/Views/Informed.antt =====
-- A registration leaves every connected server informed of its peers, or with its departure queued.
use crossbridge.Prelude.{
  Bool, true, false, not, ◌&&◌, List, ◌∷◌, ◌++◌, ◌≡◌, ◌⊎◌, inl, inr, sym, ◌∙◌, subst, some,
  if◌then◌else◌, ◌==◌, In, In-append_left, contains, contains_iff, nat_eq, nat_has_eq, arith,
  Bool-cases,
}
use crossbridge.Prelude.Text.{Text, text_has_eq, text_eq_iff}
use crossbridge.Prelude.HashMap
use crossbridge.Prelude.HashMap.{HashMap}
use crossbridge.Prelude.HashMap.Laws.{get-insert, contains-keys, In-values_of_get, get_of_In-values}
use crossbridge.Protocol.{Register, Notification, notification, peer_joined}
use crossbridge.Supervisor.{
  ConnId, StreamId, ConnRecord, departed, Groups, Log, State, Faults, group_map, is_registered,
  leave, deliver, departures, enroll, handle_registration,
}
use crossbridge.Supervisor.Members.{member, enter, member-enter, member-leave}
use crossbridge.Supervisor.Delivery.{In-departures}
use crossbridge.Supervisor.Registration.{
  IsUnchanged, record_of, ack_of, registration_cases, accepted_lem,
}
use crossbridge.Supervisor.Invariant.{IsConsistent, Inv}
use crossbridge.Supervisor.Views.{hear, view, IsInformed, HasOwnStreams, IsUnused}
use crossbridge.Supervisor.Views.Heard.{view-other, view-own, view-deliver_unused, view-deliver}

-- The ids of a group are those of the connections whose record names it.
pub contains-values :
    (G : Groups) (C : HashMap ConnId ConnRecord) (n : ConnId)
    → IsConsistent G C n
    → (id : ConnId) (rec : ConnRecord) (g : Text) → HashMap.get id C ≡ some rec
    → contains (HashMap.values (group_map g G)) id ≡ (rec.group == g)
contains-values G C n c id rec g e = elim (Bool-cases (rec.group == g)) [
  | inl same ↦ rw same (
      (contains_iff id (HashMap.values (group_map g G))).1 (
        In-values_of_get rec.slug id (group_map g G) (
          subst (λ x. member G x rec.slug ≡ some id) ((text_eq_iff rec.group g).0 same)
            (c.is_member id rec e))))
  | inr other ↦ elim (Bool-cases (contains (HashMap.values (group_map g G)) id)) [
    | inr absent ↦ rw (absent, other)
    | inl listed ↦
        let (slug, held) =
          get_of_In-values id (group_map g G) (c.tidy.distinct g)
            ((contains_iff id (HashMap.values (group_map g G))).0 listed) in
        let (rec', found, slug_lem, group_lem) = c.has_conn g slug id held in
        absurd (ground (arith, other, found, e, group_lem, text_eq_iff rec.group g))
  ]
]

-- Whether a slug is registered after an entry and after a departure.
registered-enter :
    (g s : Text) (id : ConnId) (G : Groups) (g' slug : Text)
    → HashMap.contains_key slug (group_map g' (enter g s id G))
      ≡ (if g == g' && s == slug then true else HashMap.contains_key slug (group_map g' G))
unfolding HashMap.contains_key
registered-enter g s id G g' slug = ground (arith, member-enter g s id G g' slug)

pub registered-leave :
    (g s : Text) (G : Groups) (g' slug : Text)
    → HashMap.contains_key slug (group_map g' (leave g s G))
      ≡ (if g == g' && s == slug then false else HashMap.contains_key slug (group_map g' G))
unfolding HashMap.contains_key
registered-leave g s G g' slug = ground (arith, member-leave g s G g' slug)

module _ (f : Faults) (stream : StreamId) (reg : Register) (s : State) (v : Inv s)
    (own : HasOwnStreams s.conns) (unused : IsUnused stream s.conns)
    (informed : IsInformed s.events s) where
  unchanged-IsInformed : (t : State) → IsUnchanged stream s t → IsInformed t.events t
  unfolding is_registered
  unchanged-IsInformed t u id rec h =
      let found = rw u.same_conns at h in
      elim (informed id rec found) [
        | inr q ↦ inr (rw u.same_events q)
        | inl knows ↦ inl (λ slug. elim u.only_to_stream [
          | inl same ↦ rw (same, u.same_groups) (knows slug)
          | inr (msg, more) ↦
              rw (more, u.same_groups)
                (view-other rec.write_half stream msg s.sent slug
                    (λ shared. unused id rec found (sym shared))
                  ∙ knows slug)
        ])
      ]

  abbrev joined : Notification
  joined = peer_joined reg.slug

  abbrev members : List ConnId
  members = HashMap.values (group_map reg.group s.groups)

  abbrev start : Log
  start = (stream, ack_of s reg) ∷ s.sent

  abbrev sent_after : Log
  sent_after = (deliver f (notification joined) s.conns members start).1

  abbrev failed : List ConnId
  failed = (deliver f (notification joined) s.conns members start).0

  abbrev registered_after : Text → Text → Bool
  registered_after g slug =
      HashMap.contains_key slug (group_map g (enter reg.group reg.slug s.next_id s.groups))

  -- The new server has its view from the Ack alone.
  new_knows :
      is_registered s reg.group reg.slug ≡ false
      → (slug : Text)
      → view stream sent_after slug ≡ (registered_after reg.group slug && not (slug == reg.slug))
  unfolding is_registered hear
  new_knows free slug =
      view-deliver_unused f joined s.conns stream unused members start slug
      ∙ view-own stream (ack_of s reg) s.sent slug
      ∙ ground (
        arith,
        free,
        contains-keys slug (group_map reg.group s.groups),
        registered-enter reg.group reg.slug s.next_id s.groups reg.group slug,
        text_eq_iff reg.group reg.group,
        text_eq_iff reg.slug slug,
        text_eq_iff slug reg.slug,
      )

  -- The others hear PeerJoined if they are of the group.
  old_informed :
      is_registered s reg.group reg.slug ≡ false
      → (id : ConnId) (rec : ConnRecord) → HashMap.get id s.conns ≡ some rec
      → ((slug : Text)
          → view rec.write_half sent_after slug
            ≡ (registered_after rec.group slug && not (slug == rec.slug)))
        ⊎ In (departed id) (s.events ++ departures failed)
  unfolding is_registered hear HashMap.contains_key
  old_informed free id rec e = elim (informed id rec e) [
    | inr q ↦ inr (In-append_left (departed id) s.events (departures failed) q)
    | inl knows ↦
        In-departures id failed s.events
          (elim (view-deliver f joined s.conns own id rec e members start) [
            | inr lost ↦ inr lost
            | inl heard ↦ inl (λ slug.
                heard slug
                ∙ ground (
                  arith,
                  free,
                  knows slug,
                  contains-values s.groups s.conns s.next_id v id rec reg.group e,
                  view-other rec.write_half stream (ack_of s reg) s.sent slug
                      (λ shared. unused id rec e (sym shared)),
                  v.is_member id rec e,
                  member-enter reg.group reg.slug s.next_id s.groups rec.group slug,
                  text_eq_iff reg.group rec.group,
                  text_eq_iff rec.group reg.group,
                  text_eq_iff reg.slug slug,
                  text_eq_iff slug rec.slug,
                ))
          ])
  ]

  accepted-IsInformed :
      is_registered s reg.group reg.slug ≡ false
      → (id : ConnId) (rec : ConnRecord)
      → HashMap.get id (HashMap.insert s.next_id (record_of stream reg) s.conns) ≡ some rec
      → ((slug : Text)
          → view rec.write_half sent_after slug
            ≡ (registered_after rec.group slug && not (slug == rec.slug)))
        ⊎ In (departed id) (s.events ++ departures failed)
  accepted-IsInformed free id rec h = elim (Bool-cases (nat_eq s.next_id id)) [
    | inr other ↦
        old_informed free id rec
          (ground (arith, h, other, get-insert s.next_id id (record_of stream reg) s.conns))
    | inl new ↦
        let same : record_of stream reg ≡ rec =
          ground (arith, h, new, get-insert s.next_id id (record_of stream reg) s.conns) in
        inl (
          subst
            (λ r.
              (slug : Text)
              → view r.write_half sent_after slug
                ≡ (registered_after r.group slug && not (slug == r.slug)))
            same (new_knows free))
  ]

  pub registration-IsInformed :
      IsInformed (handle_registration f stream reg s).events (handle_registration f stream reg s)
  unfolding enroll is_registered enter
  registration-IsInformed = elim (registration_cases f stream reg s) [
    | inl u ↦ unchanged-IsInformed (handle_registration f stream reg s) u
    | inr (fs, a) ↦ rw (accepted_lem f stream reg s fs a) (accepted-IsInformed a.free)
  ]
