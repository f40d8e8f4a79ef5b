-- ===== src/Tests/Orphans.antt =====
-- A database in memory that does not take one label, and a submit with that label.
use crossbridge.Prelude.{
  none, some, List, [], ◌∷◌, ◌++◌, ◌≡◌, refl, arith, ◌==◌, if◌then◌else◌, Result, ok, err,
  Bool-cases, inl, inr,
}
use crossbridge.Prelude.Text.{Text, codes, text_eq, text_has_eq}
use crossbridge.Prelude.Action.{Action}
use crossbridge.Prelude.HashMap
use crossbridge.Prelude.Decimal.{ℤ, pos, int_eq, int_has_eq}
use crossbridge.Protocol.{Attachment, SubmitIssue}
use crossbridge.Crosslink.{Database, IsLawful}
use crossbridge.Server.Attachment.{MaterializedAttachment}
use crossbridge.Server.Handler.{
  answer_instruction_footer, push_missing, inbound_labels, find_by_status, find_issue_with_label,
  add_labels, ref_label, handle_submit,
}
use crossbridge.Server.Handler.Orphans.{unlabelled_stays}
use crossbridge.Tests.Memory.{
  Memory, memory, contents, memory-IsLawful, create, is_free, label, commit, select, list,
}

unfoldable brittle_label : ℤ → Text → Action Memory Text Unit
brittle_label id l m = if l == codes "bad" then (err (codes "no such label"), m) else label id l m

unfoldable brittle : Database Memory
unfolding memory
brittle = record memory { add_label = brittle_label }

takes :
    (id : ℤ) (l : Text) (d d' : Memory)
    → brittle_label id l d ≡ (ok tt, d')
    → memory.add_label id l d ≡ (ok tt, d')
unfolding brittle_label memory
takes id l d d' h = elim (Bool-cases (l == codes "bad")) [
  | inl e ↦ absurd (ground (arith, e))
  | inr e ↦ ground (arith, e)
]

brittle-IsLawful : IsLawful brittle contents
unfolding brittle memory
brittle-IsLawful = record {
  create_fresh = memory-IsLawful.create_fresh;
  create_issue_of = memory-IsLawful.create_issue_of;
  create_keeps = memory-IsLawful.create_keeps;
  add_label_lem = λ id l d d' h. memory-IsLawful.add_label_lem id l d d' (takes id l d d' h);
  add_label_keeps = λ id l d d' h. memory-IsLawful.add_label_keeps id l d d' (takes id l d d' h);
  remove_label_lem = memory-IsLawful.remove_label_lem;
  remove_label_keeps = memory-IsLawful.remove_label_keeps;
  add_comment_lem = memory-IsLawful.add_comment_lem;
  add_comment_keeps = memory-IsLawful.add_comment_keeps;
  close_issue_lem = memory-IsLawful.close_issue_lem;
  close_keeps = memory-IsLawful.close_keeps;
  create_fails = memory-IsLawful.create_fails;
  comment_fails = memory-IsLawful.comment_fails;
  commits = memory-IsLawful.commits;
  rolls_back = memory-IsLawful.rolls_back;
  get_issue_lem = memory-IsLawful.get_issue_lem;
  get_labels_lem = memory-IsLawful.get_labels_lem;
  get_comments_lem = memory-IsLawful.get_comments_lem;
  list_sound = memory-IsLawful.list_sound;
  list_complete = memory-IsLawful.list_complete;
}

abbrev start : Memory
start = record { rows = []; labels = λ j. []; comments = λ j. []; next = 1 }

abbrev request : SubmitIssue
request = record {
  title = codes "t";
  body = codes "b";
  labels = codes "bad" ∷ [];
  source_slug = codes "s";
  source_uuid = codes "u";
  attachments = [];
}

abbrev no_files : List Attachment → Result Text MaterializedAttachment
no_files as' = err (codes "no repository")

abbrev created : Memory
created =
    (create (codes "t") (some (codes "b" ++ answer_instruction_footer)) (codes "high") start).1

unseen : find_issue_with_label brittle (ref_label (codes "u")) start ≡ ok none
unfolding brittle memory find_issue_with_label find_by_status list select
unseen = refl

makes :
    brittle.create_issue
      (codes "t")
      (some (codes "b" ++ answer_instruction_footer))
      (codes "high")
      start
    ≡ (ok (pos 1), created)
unfolding brittle memory create is_free HashMap.contains_key HashMap.get int_eq
makes = refl

fails :
    brittle.transaction (add_labels brittle (pos 1) (inbound_labels request)) created
    ≡ (err (codes "no such label"), created)
unfolding brittle brittle_label memory create is_free HashMap.contains_key HashMap.get int_eq commit
    add_labels inbound_labels push_missing label codes text_eq
fails = refl

unlabelled_stays_example :
    handle_submit brittle no_files request start
    ≡ (err (codes "applying labels: " ++ codes "no such label"), created)
unlabelled_stays_example =
    (unlabelled_stays brittle contents brittle-IsLawful no_files request start created created
      (pos 1) (codes "no such label") unseen makes fails).0
