-- ===== src/Tests/Client.antt =====
-- The client's commands, and the server's sockets and its way to the supervisor.
use crossbridge.Prelude.{
  ℕ, true, false, Option, none, some, List, [], ◌∷◌, ◌++◌, ◌≡◌, ◌≢◌, ◌↔◌, refl, In, Result, ok, err,
  All,
}
use crossbridge.Prelude.Text.{
  Text, codes, text_eq, text_has_eq, split, trim, is_whitespace, contains_text, split_once,
  strip_prefix, strip_suffix, drop_while, trim_end_matches, take_until, after_last,
}
use crossbridge.Prelude.HashMap
use crossbridge.Prelude.Decimal.{ℤ, pos, int_eq, int_has_eq, display_int}
use crossbridge.Prelude.FilePath.{FilePath, of_text, join, path_eq, path_has_eq}
use crossbridge.Prelude.FileSystem.{
  FileSystem, file, exists, is_file, create_dir_all, make_dirs, ancestors, heads,
}
use crossbridge.Protocol.{ClientRequest, ServerResponse, done}
use crossbridge.Protocol.Roots.{OsString, Env, default_socket_root, into_string}
use crossbridge.Crosslink.{Issue, open_status}
use crossbridge.Client.Commands.{
  socket_root, socket_dir, peer_socket, load_issue, require_peer, ask, accepted, mark_outbound,
  submission, submit_cmd,
}
use crossbridge.Client.Commands.Marks.{submitted_is_found}
use crossbridge.Client.Peers.{text_le, insert_sorted, sort, slug_of_name, collect, list_peers}
use crossbridge.Client.Peers.Listed.{list_peers_lem, IsSorted, socket_entry}
use crossbridge.Client.Slug as ClientSlug
use crossbridge.Client.Slug.{parse_origin_url, is_separator}
use crossbridge.Server.Slug.{parse_slug, path_part, url_path, strip_git, last_segment}
use crossbridge.Server.Handler
use crossbridge.Server.Handler.{find_issue_with_label, inbound_labels}
use crossbridge.Server.Handler.Find.{IsKnown, Carries}
use crossbridge.Server.Paths.{listener_socket, peer_dir}
use crossbridge.Server.Listeners.{World, Refusals, new, remove_file, remove, bind, install, add}
use crossbridge.Server.Supervisor.{connect_and_register_with_backoff, is_rejection}
use crossbridge.Server.Supervisor.Backoff.{backoff_lem, schedule, IsRetried, IsFinal}
use crossbridge.Tests.Memory.{
  Memory, memory, contents, memory-IsLawful, issue_of_row, issue_at, label,
}

abbrev no_env : Env
no_env k = none

abbrev issue : Issue
issue = record { id = pos 1; title = codes "t"; description = none; status = open_status }

abbrev local : Memory
local = record {
  rows = (pos 1, record { title = codes "t"; description = none; status = open_status }) ∷ [];
  labels = λ j. [];
  comments = λ j. [];
  next = 2;
}

abbrev sockets : FileSystem
sockets = (peer_socket no_env (codes "a") (codes "c"), file) ∷ []

abbrev exchange : FilePath → Text → ClientRequest → Result Text ServerResponse
exchange path peer q = ok (done (pos 7))

abbrev line : Text
line =
    codes "submitted issue "
    ++ (codes "#" ++ display_int (pos 1))
    ++ codes " to '"
    ++ codes "c"
    ++ codes "' (remote id "
    ++ display_int (pos 7)
    ++ codes ")"

abbrev marked : Memory
marked = (submit_cmd memory sockets no_env exchange (codes "a") (pos 1) (codes "c") local).1

runs :
    submit_cmd memory sockets no_env exchange (codes "a") (pos 1) (codes "c") local
    ≡ (ok line, marked)
unfolding submit_cmd load_issue require_peer ask accepted mark_outbound memory label issue_at
    issue_of_row HashMap.get HashMap.contains_key exists path_eq peer_socket socket_dir socket_root
    default_socket_root join of_text split codes int_eq text_eq
runs = refl

is_there : contents.issue_of local (pos 1) ≡ some issue
unfolding contents issue_at issue_of_row HashMap.get int_eq
is_there = refl

is_named : memory.get_issue_uuid_by_id (pos 1) local ≡ ok (codes "5f")
unfolding memory
is_named = refl

is_alone :
    (k : ℤ)
    → IsKnown memory contents memory-IsLawful (Handler.ref_label (codes "5f")) local k
    → k ≡ pos 1
unfolding IsKnown Carries contents
is_alone k (i, at, which, l) = absurd l

submitted_is_found_example :
    (remote : ℤ) × (exchange (peer_socket no_env (codes "a") (codes "c")) (codes "c") (
        submission memory sockets no_env exchange
          (codes "a")
          issue
          (codes "5f")
          (contents.labels_of local (pos 1)))
      ≡ ok (done remote))
    × ((o : Option ℤ)
        → find_issue_with_label memory (Handler.ref_label (codes "5f")) marked ≡ ok o
        → o ≡ some (pos 1))
submitted_is_found_example =
    submitted_is_found memory contents memory-IsLawful sockets no_env exchange (codes "a")
      (codes "c") line (codes "5f") (pos 1) local marked issue runs is_there refl refl is_named
      is_alone

abbrev entries : List (Result Text OsString)
entries =
    ok (record { text = codes "b.socket"; is_utf8 = true })
    ∷ ok (record { text = codes "a.socket"; is_utf8 = true })
    ∷ ok (record { text = codes "notes"; is_utf8 = true })
    ∷ []

lists : list_peers (ok entries) (codes "d") ≡ ok (codes "a" ∷ codes "b" ∷ [])
unfolding list_peers collect slug_of_name into_string strip_suffix strip_prefix codes sort
    insert_sorted text_le
lists = refl

list_peers_lem_example :
    IsSorted (codes "a" ∷ codes "b" ∷ [])
    × ((slug : Text)
        → In slug (codes "a" ∷ codes "b" ∷ [])
          ↔ ((slug ≢ []) × In (ok (socket_entry slug)) entries))
list_peers_lem_example = list_peers_lem entries (codes "d") (codes "a" ∷ codes "b" ∷ []) lists

abbrev failure : Result Text ℕ
failure = err (codes "connecting to supervisor")

is_retried : All IsRetried (failure ∷ failure ∷ [])
unfolding IsRetried is_rejection contains_text split_once strip_prefix codes
is_retried = (refl, (refl, tt))

registers : IsFinal {A = ℕ} (ok 3)
unfolding IsFinal
registers = tt

backoff_lem_example :
    connect_and_register_with_backoff ((failure ∷ failure ∷ []) ++ ok 3 ∷ [])
    ≡ (schedule 0 2, some (ok 3))
backoff_lem_example = backoff_lem (failure ∷ failure ∷ []) (ok 3) [] is_retried registers

abbrev idle : World
idle = record {
  set =
      new (codes "a") (record { root = record { absolute = true; components = codes "run" ∷ [] } });
  fs = [];
}

abbrev willing : Refusals
willing = record { create_dir = false; bind = false }

abbrev listening : World
listening = (add willing (codes "c") idle).1

adds : add willing (codes "c") idle ≡ (true, listening)
unfolding add install remove remove_file bind new listener_socket peer_dir create_dir_all make_dirs
    ancestors heads exists is_file HashMap.get HashMap.insert HashMap.remove HashMap.contains_key
    path_eq join of_text split codes text_eq
adds = refl

parses : parse_slug (codes "h:o/r.git") ≡ some (codes "r")
unfolding parse_slug path_part url_path strip_git last_segment trim trim_end_matches drop_while
    take_until after_last is_whitespace contains_text split_once strip_prefix strip_suffix codes
parses = refl

client_parses : parse_origin_url (codes "h:o/r.git") ≡ some (codes "r")
unfolding parse_origin_url ClientSlug.strip_git trim trim_end_matches drop_while after_last
    is_whitespace strip_prefix strip_suffix codes
client_parses = refl
