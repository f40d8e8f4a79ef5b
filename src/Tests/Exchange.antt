-- ===== src/Tests/Exchange.antt =====
-- A submit of an instance, and the answer that comes back to it.
use crossbridge.Prelude.{none, some, List, [], ◌∷◌, ◌++◌, ◌≡◌, refl, Result, ok, err}
use crossbridge.Prelude.Text.{Text, codes, text_eq, text_has_eq, split}
use crossbridge.Prelude.HashMap
use crossbridge.Prelude.Decimal.{ℤ, pos, int_eq, int_has_eq, display_int}
use crossbridge.Prelude.FilePath.{FilePath, of_text, join, path_eq}
use crossbridge.Prelude.FileSystem.{file, exists}
use crossbridge.Protocol.{Attachment, SubmitIssue, ClientRequest, submit, ServerResponse}
use crossbridge.Protocol.Roots.{Env, default_socket_root}
use crossbridge.Crosslink.{Issue, open_status}
use crossbridge.Server.Attachment.{MaterializedAttachment}
use crossbridge.Server.Handler
use crossbridge.Server.Handler.{
  find_by_status, find_issue_with_label, push_missing, inbound_labels, add_labels, add_note, attach,
  create_inbound, handle_submit, handle_answer, to_copy, add_results, drop_pending, mark_resolved,
  apply_answer, close_if_open, answer_issue, respond, dispatch,
}
use crossbridge.Server.Handler.Submit.{IsFiled}
use crossbridge.Client.Commands.{
  socket_root, socket_dir, peer_socket, load_issue, require_peer, ask, accepted, description_of,
  submission, mark_outbound, submit_cmd,
}
use crossbridge.Client.Commands.Marks.{submitted_line}
use crossbridge.Exchange.{Instance, Reaches, sent_issue, submit_delivers, resubmit_files_once}
use crossbridge.Tests.Memory.{
  Memory, memory, contents, memory-IsLawful, issue_of_row, issue_at, is_free, create, close, label,
  unlabel, comment, commit, matches, select, list,
}

abbrev pub no_env : Env
no_env k = none

abbrev pub no_files : List Attachment → Result Text MaterializedAttachment
no_files as' = err (codes "no repository")

abbrev pub issue : Issue
issue = record { id = pos 1; title = codes "t"; description = none; status = open_status }

abbrev pub here : Memory
here = record {
  rows = (pos 1, record { title = codes "t"; description = none; status = open_status }) ∷ [];
  labels = λ j. codes "bug" ∷ [];
  comments = λ j. [];
  next = 2;
}

abbrev pub there : Memory
there = record { rows = []; labels = λ j. []; comments = λ j. []; next = 1 }

-- The instance `a`, and `b` with what its client is answered.
abbrev pub a : Instance Memory
a = record {
  slug = codes "a";
  db = memory;
  fs = (peer_socket no_env (codes "a") (codes "b"), file) ∷ [];
  env = no_env;
  exchange = λ p l q. ok (respond memory (dispatch memory no_files (codes "a") q there).0);
  materialize = no_files;
}

abbrev pub b : (FilePath → Text → ClientRequest → Result Text ServerResponse) → Instance Memory
b exchange = record {
  slug = codes "b";
  db = memory;
  fs = (peer_socket no_env (codes "b") (codes "a"), file) ∷ [];
  env = no_env;
  exchange = exchange;
  materialize = no_files;
}

abbrev pub deaf : Instance Memory
deaf = b (λ p l q. err (codes "no"))

abbrev pub sent : SubmitIssue
sent = sent_issue (codes "a") issue (codes "5f") (codes "bug" ∷ [])

abbrev submitted : Text
submitted =
    codes "submitted issue "
    ++ (codes "#" ++ display_int (pos 1))
    ++ codes " to '"
    ++ codes "b"
    ++ codes "' (remote id "
    ++ display_int (pos 1)
    ++ codes ")"

abbrev pub waiting : Memory
waiting = (submit_cmd memory a.fs no_env a.exchange (codes "a") (pos 1) (codes "b") here).1

submits :
    submit_cmd memory a.fs no_env a.exchange (codes "a") (pos 1) (codes "b") here
    ≡ (ok submitted, waiting)
unfolding submit_cmd load_issue require_peer ask accepted mark_outbound submission description_of
    memory contents HashMap.get HashMap.insert HashMap.remove HashMap.contains_key list select
    matches issue_at issue_of_row is_free create close label unlabel comment commit push_missing
    inbound_labels add_labels add_note attach create_inbound handle_submit find_issue_with_label
    find_by_status dispatch respond exists path_eq peer_socket socket_dir socket_root
    default_socket_root join of_text split codes int_eq text_eq
submits = refl

pub unseen : find_issue_with_label memory (Handler.ref_label (codes "5f")) there ≡ ok none
unfolding memory find_issue_with_label find_by_status list select
unseen = refl

is_there : contents.issue_of here (pos 1) ≡ some issue
unfolding contents issue_at issue_of_row HashMap.get int_eq
is_there = refl

is_named : memory.get_issue_uuid_by_id (pos 1) here ≡ ok (codes "5f")
unfolding memory
is_named = refl

to_b :
    Reaches a deaf there
      (submit (sent_issue (codes "a") issue (codes "5f") (contents.labels_of here (pos 1))))
unfolding Reaches
to_b = refl

submit_delivers_example :
    let s = sent_issue (codes "a") issue (codes "5f") (contents.labels_of here (pos 1)) in
    (n : ℤ) × (e : Memory) × (submitted ≡ submitted_line (pos 1) (codes "b") n)
    × (handle_submit memory no_files s there ≡ (ok n, e))
    × IsFiled memory contents memory-IsLawful no_files s n there e
submit_delivers_example =
    submit_delivers a deaf contents contents memory-IsLawful memory-IsLawful (pos 1) issue
      (codes "5f") submitted here waiting there to_b is_there is_named unseen submits

abbrev pub filed_there : Memory
filed_there = (handle_submit memory no_files sent there).1

pub files : handle_submit memory no_files sent there ≡ (ok (pos 1), filed_there)
unfolding memory HashMap.get HashMap.insert HashMap.remove HashMap.contains_key list select matches
    issue_at issue_of_row is_free create close label unlabel comment commit push_missing sent_issue
    description_of inbound_labels add_labels add_note attach create_inbound handle_submit
    find_issue_with_label find_by_status codes int_eq text_eq
files = refl

-- A second try, where the first was carried out but not noted.
abbrev retrying : Instance Memory
retrying = record a {
  exchange = λ p l q. ok (respond memory (dispatch memory no_files (codes "a") q filed_there).0);
}

abbrev retried : Memory
retried = (submit_cmd memory a.fs no_env retrying.exchange (codes "a") (pos 1) (codes "b") here).1

resubmits :
    submit_cmd memory a.fs no_env retrying.exchange (codes "a") (pos 1) (codes "b") here
    ≡ (ok submitted, retried)
unfolding submit_cmd load_issue require_peer ask accepted mark_outbound submission description_of
    memory contents HashMap.get HashMap.insert HashMap.remove HashMap.contains_key list select
    matches issue_at issue_of_row is_free create close label unlabel comment commit push_missing
    inbound_labels add_labels add_note attach create_inbound handle_submit find_issue_with_label
    find_by_status dispatch respond exists path_eq peer_socket socket_dir socket_root
    default_socket_root join of_text split codes int_eq text_eq sent_issue
resubmits = refl

found_again :
    find_issue_with_label memory (Handler.ref_label (codes "5f")) filed_there ≡ ok (some (pos 1))
unfolding memory HashMap.get HashMap.insert HashMap.remove HashMap.contains_key list select matches
    issue_at issue_of_row is_free create close label unlabel comment commit push_missing sent_issue
    description_of inbound_labels add_labels add_note attach create_inbound handle_submit
    find_issue_with_label find_by_status codes int_eq text_eq
found_again = refl

to_b_again :
    Reaches retrying deaf filed_there
      (submit (sent_issue (codes "a") issue (codes "5f") (contents.labels_of here (pos 1))))
unfolding Reaches
to_b_again = refl

resubmit_files_once_example :
    (submitted ≡ submitted_line (pos 1) (codes "b") (pos 1))
    × (dispatch memory no_files
          (codes "a")
          (submit (sent_issue (codes "a") issue (codes "5f") (contents.labels_of here (pos 1))))
          filed_there
        ≡ (ok (pos 1), filed_there))
unfolding sent_issue
resubmit_files_once_example =
    resubmit_files_once retrying deaf contents contents memory-IsLawful memory-IsLawful (pos 1)
      issue sent submitted (pos 1) here retried there filed_there (some (pos 1)) files found_again
      is_there is_named to_b_again resubmits
