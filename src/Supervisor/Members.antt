-- ===== src/Supervisor/Members.antt =====
-- crossbridge-supervisor/src/lib.rs: who is registered, before and after an entry or a departure.
use crossbridge.Prelude.{
  ◌&&◌, Option, none, some, [], ◌≡◌, ◌≢◌, if◌then◌else◌, ◌==◌, arith, Distinct, Bool-cases, inl,
  inr,
}
use crossbridge.Prelude.Text.{Text, text_has_eq, text_eq_iff}
use crossbridge.Prelude.HashMap
use crossbridge.Prelude.HashMap.{HashMap}
use crossbridge.Prelude.HashMap.Laws.{
  get-insert, get-remove, remove-nil, insert-ne-nil, keys-insert-Distinct, keys-remove-Distinct,
}
use crossbridge.Supervisor.{ConnId, Groups, group_map, leave}

-- The connection that holds a slug of a group.
abbrev pub member : Groups → Text → Text → Option ConnId
member groups group slug = HashMap.get slug (group_map group groups)

-- The map of each group names a slug once, and no group is empty.
pub record IsTidy (groups : Groups) : Type 0 where
  pub distinct : (group : Text) → Distinct (HashMap.keys (group_map group groups))
  pub inhabited : (group : Text) → HashMap.get group groups ≢ some []

unfoldable pub enter : Text → Text → ConnId → Groups → Groups
enter group slug id groups =
    HashMap.insert group (HashMap.insert slug id (group_map group groups)) groups

pub group_map-enter :
    (g s : Text) (id : ConnId) (groups : Groups) (g' : Text)
    → group_map g' (enter g s id groups)
      ≡ (if g == g' then HashMap.insert s id (group_map g groups) else group_map g' groups)
unfolding group_map enter
group_map-enter g s id groups g' =
    ground (arith, get-insert g g' (HashMap.insert s id (group_map g groups)) groups)

pub member-enter :
    (g s : Text) (id : ConnId) (groups : Groups) (g' s' : Text)
    → member (enter g s id groups) g' s'
      ≡ (if g == g' && s == s' then some id else member groups g' s')
member-enter g s id groups g' s' =
    rw (group_map-enter g s id groups g')
      (ground (arith, get-insert s s' id (group_map g groups), text_eq_iff g g'))

pub group_map-leave :
    (g s : Text) (groups : Groups) (g' : Text)
    → group_map g' (leave g s groups)
      ≡ (if g == g' then HashMap.remove s (group_map g groups) else group_map g' groups)
unfolding group_map leave
group_map-leave g s groups g' = ground (
  arith,
  get-insert g g' (HashMap.remove s (group_map g groups)) groups,
  get-remove g g' groups,
  text_eq_iff g g',
  remove-nil {V = ConnId} s,
)

pub member-leave :
    (g s : Text) (groups : Groups) (g' s' : Text)
    → member (leave g s groups) g' s' ≡ (if g == g' && s == s' then none else member groups g' s')
member-leave g s groups g' s' =
    rw (group_map-leave g s groups g')
      (ground (arith, get-remove s s' (group_map g groups), text_eq_iff g g'))

pub enter-IsTidy :
    (g s : Text) (id : ConnId) (groups : Groups) → IsTidy groups → IsTidy (enter g s id groups)
unfolding enter
enter-IsTidy g s id groups t = record {
  distinct = λ group. rw (group_map-enter g s id groups group) (elim (Bool-cases (g == group)) [
    | inl same ↦ rw same (keys-insert-Distinct s id (group_map g groups) (t.distinct g))
    | inr other ↦ rw other (t.distinct group)
  ]);
  inhabited = λ group h. ground (
    arith,
    get-insert g group (HashMap.insert s id (group_map g groups)) groups,
    t.inhabited group,
    insert-ne-nil s id (group_map g groups),
  );
}

pub leave-IsTidy : (g s : Text) (groups : Groups) → IsTidy groups → IsTidy (leave g s groups)
unfolding leave group_map
leave-IsTidy g s groups t = record {
  distinct = λ group. rw (group_map-leave g s groups group) (elim (Bool-cases (g == group)) [
    | inl same ↦ rw same (keys-remove-Distinct s (group_map g groups) (t.distinct g))
    | inr other ↦ rw other (t.distinct group)
  ]);
  inhabited = λ group h. ground (
    arith,
    get-insert g group (HashMap.remove s (group_map g groups)) groups,
    get-remove g group groups,
    t.inhabited group,
    text_eq_iff g group,
  );
}
