-- ===== src/Tests/Answers.antt =====
-- The client's answer of an inbound issue with one result, and a submit to a peer that refuses it.
use crossbridge.Prelude.{none, [], ◌∷◌, ◌++◌, ◌≡◌, ◌⊎◌, refl, inl, Result, ok, err}
use crossbridge.Prelude.Text.{Text, codes, text_eq, text_has_eq, split, strip_prefix}
use crossbridge.Prelude.HashMap
use crossbridge.Prelude.Decimal.{pos, int_eq, int_has_eq, display_int}
use crossbridge.Prelude.FilePath.{FilePath, of_text, join, path_eq}
use crossbridge.Prelude.FileSystem.{FileSystem, file, exists}
use crossbridge.Protocol.{ClientRequest, ServerResponse, done, failed}
use crossbridge.Protocol.Roots.{Env, default_socket_root}
use crossbridge.Crosslink.{open_status}
use crossbridge.Client.Labels.{find_prefixed, has}
use crossbridge.Client.Commands.{
  socket_root, socket_dir, peer_socket, load_issue, require_peer, require_inbound, require_label,
  ask, accepted, results_of, answer_from, answer_cmd, submit_cmd,
}
use crossbridge.Client.Commands.Answers.{IsAnswered, answer_cmd_effect}
use crossbridge.Client.Commands.Failures.{SubmitAccepted, AnswerAccepted, failures_are_clean}
use crossbridge.Tests.Memory.{
  Memory, memory, contents, memory-IsLawful, issue_of_row, issue_at, label, close,
}

abbrev no_env : Env
no_env k = none

abbrev local : Memory
local = record {
  rows = (pos 1, record { title = codes "t"; description = none; status = open_status }) ∷ [];
  labels = λ j. codes "xb:inbound" ∷ codes "xb-source:c" ∷ codes "xb-ref:u" ∷ [];
  comments = λ j. record { content = codes "r"; kind = codes "result" } ∷ [];
  next = 2;
}

abbrev sockets : FileSystem
sockets = (peer_socket no_env (codes "a") (codes "c"), file) ∷ []

abbrev exchange : FilePath → Text → ClientRequest → Result Text ServerResponse
exchange path peer q = ok (done (pos 7))

abbrev line : Text
line =
    codes "answered issue "
    ++ (codes "#" ++ display_int (pos 1))
    ++ codes " -> '"
    ++ codes "c"
    ++ codes "' (remote id "
    ++ display_int (pos 7)
    ++ codes ")"

abbrev answered : Memory
answered = (answer_cmd memory sockets no_env exchange (codes "a") (pos 1) local).1

runs : answer_cmd memory sockets no_env exchange (codes "a") (pos 1) local ≡ (ok line, answered)
unfolding answer_cmd answer_from load_issue require_peer require_inbound require_label ask accepted
    results_of find_prefixed has strip_prefix memory label close issue_at issue_of_row HashMap.get
    HashMap.contains_key exists path_eq peer_socket socket_dir socket_root default_socket_root join
    of_text split codes int_eq text_eq
runs = refl

answer_cmd_effect_example :
    IsAnswered memory contents memory-IsLawful sockets no_env exchange
      (codes "a")
      (pos 1)
      local
      answered
answer_cmd_effect_example =
    answer_cmd_effect memory contents memory-IsLawful sockets no_env exchange (codes "a") line
      (pos 1) local answered runs

abbrev refusing : FilePath → Text → ClientRequest → Result Text ServerResponse
refusing path peer q = ok (failed (codes "no"))

refused :
    submit_cmd memory sockets no_env refusing (codes "a") (pos 1) (codes "c") local
    ≡ (err (codes "no"), local)
unfolding submit_cmd load_issue require_peer ask accepted memory issue_at issue_of_row HashMap.get
    HashMap.contains_key exists path_eq peer_socket socket_dir socket_root default_socket_root join
    of_text split codes int_eq text_eq
refused = refl

failures_are_clean_example :
    (local ≡ local)
    ⊎ ((submit_cmd memory sockets no_env refusing (codes "a") (pos 1) (codes "c") local
          ≡ (err (codes "no"), local))
        × SubmitAccepted memory sockets no_env refusing (codes "a") (codes "c") (pos 1) local)
    ⊎ ((answer_cmd memory sockets no_env refusing (codes "a") (pos 1) local
          ≡ (err (codes "no"), local))
        × AnswerAccepted memory sockets no_env refusing (codes "a") (pos 1) local)
failures_are_clean_example =
    failures_are_clean memory sockets no_env refusing (codes "a") (codes "c") (codes "no") (pos 1)
      local local (inl refused)
