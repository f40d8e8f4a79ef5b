-- ===== src/Tests/Presence.antt =====
-- A server in a run of the supervisor: it is told of a peer while it serves a connection.
use crossbridge.Prelude.{
  ℕ, ◌≡◌, ◌&&◌, ◌+◌, arith, not, true, false, refl, none, some, List, [], ◌∷◌, ok, In, ◌==◌,
  if◌then◌else◌,
}
use crossbridge.Prelude.Text.{Text, codes, text_eq, text_has_eq, split}
use crossbridge.Prelude.Action.{Action}
use crossbridge.Prelude.HashMap
use crossbridge.Prelude.FilePath.{join, of_text, path_eq}
use crossbridge.Prelude.FileSystem.{create_dir_all, make_dirs, exists, ancestors, heads, is_file}
use crossbridge.Protocol.{peer_joined}
use crossbridge.Supervisor.{
  departed, init, handle_event, handle_registration, is_registered, group_map, try_create_dir,
  slug_dir, acknowledge, enroll, write_message, deliver, deliver_one,
}
use crossbridge.Supervisor.Views.Session.{session_of, since}
use crossbridge.Server.Paths.{listener_socket, peer_dir}
use crossbridge.Server.Listeners.{World, Refusals, new, add, install, remove, bind}
use crossbridge.Server.Session.{
  Input, notified, accepted, add_each, session_loop, serve_one_session,
}
use crossbridge.Server.Session.Exact.{adds_each, adds_in_loop}
use crossbridge.Presence.{notices, listeners_are_peers}
use crossbridge.Tests.Supervisor.{base, two, rec_a, two-Reach, in_two}

abbrev fine : Refusals
fine = record { create_dir = false; bind = false }

abbrev fresh : World
fresh = record { set = new (codes "a") (record { root = base }); fs = [] }

abbrev inputs : List (Input Unit)
inputs = accepted (codes "b") tt ∷ notified fine (ok (some (peer_joined (codes "b")))) ∷ []

abbrev count_served : Text → Unit {0} → Action ℕ Text Unit
count_served peer conn d = (ok tt, d + 1)

starts : (q : Text) → HashMap.get q fresh.set.entries ≡ none
unfolding new HashMap.get
starts q = refl

stays : In (departed 0) two.events → ⊥
unfolding init handle_event handle_registration is_registered group_map HashMap.contains_key
    HashMap.get HashMap.insert HashMap.remove try_create_dir slug_dir of_text join split
    create_dir_all make_dirs exists ancestors heads is_file path_eq acknowledge enroll write_message
    deliver deliver_one codes text_eq
stays h = absurd h

messages : session_of 3 two.sent ≡ some ([], notices inputs)
unfolding session_of since notices init handle_event handle_registration is_registered group_map
    HashMap.contains_key HashMap.get HashMap.insert HashMap.remove try_create_dir slug_dir of_text
    join split create_dir_all make_dirs exists ancestors heads is_file path_eq acknowledge enroll
    write_message deliver deliver_one codes text_eq
messages = refl

runs : (serve_one_session count_served fine [] inputs fresh 0).0 ≡ none
unfolding serve_one_session session_loop
runs = refl

puts_up : (adds_each fine [] fresh && adds_in_loop inputs (add_each fine [] fresh)) ≡ true
unfolding adds_each adds_in_loop add_each add install remove bind new listener_socket peer_dir
    HashMap.contains_key HashMap.get HashMap.insert HashMap.remove of_text join split create_dir_all
    make_dirs exists ancestors heads is_file path_eq codes text_eq
puts_up = refl

listeners_are_peers_example :
    HashMap.get (codes "b") (serve_one_session count_served fine [] inputs fresh 0).1.0.set.entries
    ≡ (if is_registered two (codes "g") (codes "b") && not (codes "b" == codes "a")
        then some (listener_socket fresh.set.layout (codes "b") fresh.set.own_slug)
        else none)
listeners_are_peers_example =
    listeners_are_peers (omega arith) two-Reach 0 rec_a in_two stays count_served fine [] inputs
      fresh 0 messages starts runs puts_up (codes "b")
