-- ===== src/Tests/Supervisor.antt =====
-- The supervisor with two servers of one group, `a` and `b`.
use crossbridge.Prelude.{
  ◌+◌, ◌<◌, true, false, not, ◌&&◌, none, some, List, [], ◌∷◌, ◌++◌, ◌≡◌, ◌⊎◌, refl, sym, ap, subst,
  ◌∙◌, arith, In, ◌==◌, nat_has_eq,
}
use crossbridge.Prelude.Text.{Text, codes, text_eq, text_has_eq, split}
use crossbridge.Prelude.HashMap
use crossbridge.Prelude.FilePath.{FilePath, of_text, join, IsPlain, path_eq, path_has_eq, is_under}
use crossbridge.Prelude.FileSystem.{
  FileSystem, dir, exists, is_file, create_dir_all, make_dirs, ancestors, heads,
}
use crossbridge.Protocol.{Register, notification, peer_joined}
use crossbridge.Supervisor.{
  ConnId, ConnRecord, Event, registered, departed, State, Faults, u64_mod, init, group_map,
  slug_dir, write_message, deliver_one, deliver, try_create_dir, enroll, acknowledge, is_registered,
  handle_registration, handle_departure, handle_event,
}
use crossbridge.Supervisor.Members.{member}
use crossbridge.Supervisor.Registration.{
  Accepts, IsUnchanged, IsEnrolled, registration_outcome, registration_notifies,
}
use crossbridge.Supervisor.Departure.{departure_effect}
use crossbridge.Supervisor.Directories.{departure_removes_shared_dir}
use crossbridge.Supervisor.Invariant.{Inv}
use crossbridge.Supervisor.Views.{HasOwnStreams, view}
use crossbridge.Supervisor.Schedule.{connect, handle, Reach, here, next, IsNew}
use crossbridge.Supervisor.Schedule.Reachable.{Reach-Inv, Reach-IsInformed}

abbrev pub base : FilePath
base = record { absolute = true; components = codes "run" ∷ [] }

abbrev pub files : FileSystem
files = (base, dir) ∷ []

abbrev pub no_faults : Faults
no_faults = record { write = λ s m. none; create_dir = λ p. none; remove_dir = λ p. none }

abbrev pub reg_a : Register
reg_a = record { slug = codes "a"; group = codes "g" }

abbrev pub reg_b : Register
reg_b = record { slug = codes "b"; group = codes "g" }

abbrev pub with_events : List Event → State → State
with_events es s = record s { events = es }

abbrev pub waiting_a : State
waiting_a = with_events ((init base files).events ++ registered 3 reg_a ∷ []) (init base files)

abbrev pub one : State
one = handle_event no_faults (registered 3 reg_a) (with_events [] waiting_a)

abbrev pub waiting_b : State
waiting_b = with_events (one.events ++ registered 4 reg_b ∷ []) one

abbrev pub two : State
two = handle_event no_faults (registered 4 reg_b) (with_events [] waiting_b)

abbrev pub rec_a : ConnRecord
rec_a = record { slug = codes "a"; group = codes "g"; write_half = 3 }

abbrev pub rec_b : ConnRecord
rec_b = record { slug = codes "b"; group = codes "g"; write_half = 4 }

one_conns : one.conns ≡ (0, rec_a) ∷ []
unfolding init handle_event handle_registration is_registered group_map HashMap.contains_key
    HashMap.get HashMap.insert HashMap.remove try_create_dir slug_dir of_text join split
    create_dir_all make_dirs exists ancestors heads is_file path_eq acknowledge enroll write_message
    deliver deliver_one codes text_eq
one_conns = refl

pub two_conns : two.conns ≡ (1, rec_b) ∷ (0, rec_a) ∷ []
unfolding init handle_event handle_registration is_registered group_map HashMap.contains_key
    HashMap.get HashMap.insert HashMap.remove try_create_dir slug_dir of_text join split
    create_dir_all make_dirs exists ancestors heads is_file path_eq acknowledge enroll write_message
    deliver deliver_one codes text_eq
two_conns = refl

one_events : one.events ≡ []
unfolding init handle_event handle_registration is_registered group_map HashMap.contains_key
    HashMap.get HashMap.insert HashMap.remove try_create_dir slug_dir of_text join split
    create_dir_all make_dirs exists ancestors heads is_file path_eq acknowledge enroll write_message
    deliver deliver_one codes text_eq
one_events = refl

IsNew-3 : IsNew 3 (init base files)
unfolding init HashMap.get
IsNew-3 = (λ i r h. absurd (cc), λ w. w.1)

init_events : (init base files).events ++ registered 3 reg_a ∷ [] ≡ registered 3 reg_a ∷ []
unfolding init
init_events = refl

stream_of_a :
    (i : ConnId) (r : ConnRecord) → HashMap.get i ((0, rec_a) ∷ []) ≡ some r → r.write_half ≡ 4 → ⊥
unfolding HashMap.get
stream_of_a i r h e = ground arith

IsNew-4 : IsNew 4 one
IsNew-4 = (
  λ i r h. stream_of_a i r (ap (HashMap.get i) (sym one_conns) ∙ h),
  λ w. subst (In (registered 4 w.0)) one_events w.1,
)

pub two-Reach : Reach base files 4 two
two-Reach =
    next
      (next
        (next (next here (connect 3 reg_a IsNew-3))
          (handle no_faults (registered 3 reg_a) [] init_events))
        (connect 4 reg_b IsNew-4))
      (handle no_faults (registered 4 reg_b) []
        (ap (λ es. es ++ registered 4 reg_b ∷ []) one_events))

Reach-Inv_example : Inv two × HasOwnStreams two.conns
Reach-Inv_example = Reach-Inv (omega arith) two-Reach

pub in_two : HashMap.get 0 two.conns ≡ some rec_a
unfolding init handle_event handle_registration is_registered group_map HashMap.contains_key
    HashMap.get HashMap.insert HashMap.remove try_create_dir slug_dir of_text join split
    create_dir_all make_dirs exists ancestors heads is_file path_eq acknowledge enroll write_message
    deliver deliver_one codes text_eq
in_two = refl

Reach-IsInformed_example :
    ((slug : Text)
      → view 3 two.sent slug ≡ (is_registered two (codes "g") slug && not (slug == codes "a")))
    ⊎ In (departed 0) two.events
Reach-IsInformed_example = Reach-IsInformed (omega arith) two-Reach 0 rec_a in_two

registration_outcome_example :
    (IsUnchanged 9 one (handle_registration no_faults 9 reg_a one)
      ⊎ IsEnrolled 9 reg_a one (handle_registration no_faults 9 reg_a one))
    × (is_registered one (codes "g") (codes "a") ≡ true
        → IsUnchanged 9 one (handle_registration no_faults 9 reg_a one))
registration_outcome_example = registration_outcome no_faults 9 reg_a one

one-Inv : Inv one
one-Inv =
    (Reach-Inv (omega arith) (
      next (next here (connect 3 reg_a IsNew-3))
        (handle no_faults (registered 3 reg_a) [] init_events))).0

one_next : one.next_id + 1 < u64_mod
unfolding init handle_event handle_registration is_registered group_map HashMap.contains_key
    HashMap.get HashMap.insert HashMap.remove try_create_dir slug_dir of_text join split
    create_dir_all make_dirs exists ancestors heads is_file path_eq acknowledge enroll write_message
    deliver deliver_one codes text_eq
one_next = omega arith

pub b_Accepts : Accepts no_faults 4 reg_b one two.fs
unfolding init handle_event handle_registration is_registered group_map HashMap.contains_key
    HashMap.get HashMap.insert HashMap.remove try_create_dir slug_dir of_text join split
    create_dir_all make_dirs exists ancestors heads is_file path_eq acknowledge enroll write_message
    deliver deliver_one codes text_eq
b_Accepts = record { free = refl; makes_dir = refl; acked = refl }

a_in_one : HashMap.get 0 one.conns ≡ some rec_a
unfolding init handle_event handle_registration is_registered group_map HashMap.contains_key
    HashMap.get HashMap.insert HashMap.remove try_create_dir slug_dir of_text join split
    create_dir_all make_dirs exists ancestors heads is_file path_eq acknowledge enroll write_message
    deliver deliver_one codes text_eq
a_in_one = refl

a_member : member one.groups (codes "g") (codes "a") ≡ some 0
unfolding init handle_event handle_registration is_registered group_map HashMap.contains_key
    HashMap.get HashMap.insert HashMap.remove try_create_dir slug_dir of_text join split
    create_dir_all make_dirs exists ancestors heads is_file path_eq acknowledge enroll write_message
    deliver deliver_one codes text_eq
a_member = refl

registration_notifies_example :
    let t = handle_registration no_faults 4 reg_b one in
    In (3, notification (peer_joined (codes "b"))) t.sent ⊎ In (departed 0) t.events
registration_notifies_example =
    (registration_notifies no_faults 4 reg_b one two.fs b_Accepts).0 (codes "a") 0 rec_a a_member
      a_in_one

departure_effect_example : HashMap.get 0 (handle_departure no_faults 0 two).conns ≡ none
unfolding init handle_event handle_registration is_registered group_map HashMap.contains_key
    HashMap.get HashMap.insert HashMap.remove try_create_dir slug_dir of_text join split
    create_dir_all make_dirs exists ancestors heads is_file path_eq acknowledge enroll write_message
    deliver deliver_one codes text_eq
departure_effect_example = (departure_effect no_faults 0 rec_a two in_two).1 0

a_has_dir : exists (slug_dir two (codes "a")) two.fs ≡ true
unfolding init handle_event handle_registration is_registered group_map HashMap.contains_key
    HashMap.get HashMap.insert HashMap.remove try_create_dir slug_dir of_text join split
    create_dir_all make_dirs exists ancestors heads is_file path_eq acknowledge enroll write_message
    deliver deliver_one codes text_eq
a_has_dir = refl

b_IsPlain : IsPlain (codes "b")
unfolding codes
b_IsPlain = record { no_slash = refl; not_empty = λ e. cc; not_dot = λ e. cc }

-- `a` in the group `g` and in the group `h`.
abbrev reg_a_of_h : Register
reg_a_of_h = record { slug = codes "a"; group = codes "h" }

abbrev rec_a_of_h : ConnRecord
rec_a_of_h = record { slug = codes "a"; group = codes "h"; write_half = 5 }

abbrev shared : State
shared = handle_event no_faults (registered 5 reg_a_of_h) one

shared_first : HashMap.get 0 shared.conns ≡ some rec_a
unfolding init handle_event handle_registration is_registered group_map HashMap.contains_key
    HashMap.get HashMap.insert HashMap.remove try_create_dir slug_dir of_text join split
    create_dir_all make_dirs exists ancestors heads is_file path_eq acknowledge enroll write_message
    deliver deliver_one codes text_eq
shared_first = refl

shared_second : HashMap.get 1 shared.conns ≡ some rec_a_of_h
unfolding init handle_event handle_registration is_registered group_map HashMap.contains_key
    HashMap.get HashMap.insert HashMap.remove try_create_dir slug_dir of_text join split
    create_dir_all make_dirs exists ancestors heads is_file path_eq acknowledge enroll write_message
    deliver deliver_one codes text_eq
shared_second = refl

no_file_there : is_file shared.fs (slug_dir shared (codes "a")) ≡ false
unfolding init handle_event handle_registration is_registered group_map HashMap.contains_key
    HashMap.get HashMap.insert HashMap.remove try_create_dir slug_dir of_text join split
    create_dir_all make_dirs exists ancestors heads is_file path_eq acknowledge enroll write_message
    deliver deliver_one codes text_eq
no_file_there = refl

departure_removes_shared_dir_example :
    let t = handle_departure no_faults 0 shared in
    (HashMap.get 1 t.conns ≡ some rec_a_of_h)
    × (exists (slug_dir t (codes "a")) t.fs ≡ false)
    × ((q : FilePath) → is_under (slug_dir t (codes "a")) q ≡ true → exists q t.fs ≡ false)
departure_removes_shared_dir_example =
    departure_removes_shared_dir no_faults 0 1 rec_a rec_a_of_h shared shared_first shared_second
      (λ e. absurd (omega (arith, e))) refl refl no_file_there
