-- ===== src/Tests/Returns.antt =====
-- The answer that comes back to an instance that submitted an issue.
use crossbridge.Prelude.{
  some, ◌++◌, ◌≡◌, refl, inl, inr, sym, ap, ◌∙◌, arith, In, ok, Bool-cases, ◌==◌,
}
use crossbridge.Prelude.Text.{Text, codes, text_eq, text_has_eq, split, strip_prefix}
use crossbridge.Prelude.HashMap
use crossbridge.Prelude.Decimal.{ℤ, pos, int_eq, int_has_eq, int_eq_iff, display_int}
use crossbridge.Prelude.FilePath.{of_text, join, path_eq}
use crossbridge.Prelude.FileSystem.{exists}
use crossbridge.Protocol.{answer}
use crossbridge.Protocol.Roots.{default_socket_root}
use crossbridge.Crosslink.{Issue, closed_status}
use crossbridge.Server.Handler
use crossbridge.Server.Handler.{
  find_by_status, find_issue_with_label, push_missing, inbound_labels, add_labels, add_note, attach,
  create_inbound, handle_submit, handle_answer, to_copy, add_results, drop_pending, mark_resolved,
  apply_answer, close_if_open, answer_issue, respond, dispatch,
}
use crossbridge.Server.Handler.Find.{IsKnown, Carries}
use crossbridge.Server.Handler.Submit.{filed}
use crossbridge.Server.Handler.Answer
use crossbridge.Client.Labels
use crossbridge.Client.Labels.{find_prefixed, has}
use crossbridge.Client.Commands.{
  socket_root, socket_dir, peer_socket, load_issue, require_peer, require_inbound, require_label,
  ask, accepted, description_of, submission, mark_outbound, submit_cmd, results_of, answer_from,
  answer_cmd,
}
use crossbridge.Exchange.{Instance, Reaches, sent_issue}
use crossbridge.Exchange.Returns.{IsPlain, IsSameInbound, sent_answer, answer_returns}
use crossbridge.Tests.Memory.{
  Memory, memory, contents, memory-IsLawful, issue_of_row, issue_at, is_free, create, close, label,
  unlabel, comment, commit, matches, select, list,
}
use crossbridge.Tests.Exchange.{
  no_env, no_files, here, there, a, b, deaf, sent, waiting, filed_there, unseen, files,
}

-- The issue with a result.
abbrev worked_on : Memory
worked_on = (memory.add_comment (pos 1) (codes "r") (codes "result") filed_there).1

abbrev answering : Instance Memory
answering = b (λ p l q. ok (respond memory (dispatch memory no_files (codes "b") q waiting).0))

abbrev answered : Text
answered =
    codes "answered issue "
    ++ (codes "#" ++ display_int (pos 1))
    ++ codes " -> '"
    ++ codes "a"
    ++ codes "' (remote id "
    ++ display_int (pos 1)
    ++ codes ")"

abbrev finished : Memory
finished =
    (answer_cmd memory answering.fs no_env answering.exchange (codes "b") (pos 1) worked_on).1

answers :
    answer_cmd memory answering.fs no_env answering.exchange (codes "b") (pos 1) worked_on
    ≡ (ok answered, finished)
unfolding submit_cmd load_issue require_peer ask accepted mark_outbound submission description_of
    memory HashMap.get HashMap.insert HashMap.remove HashMap.contains_key list select sent_issue
    matches issue_at issue_of_row is_free create close label unlabel comment commit push_missing
    inbound_labels add_labels add_note attach create_inbound handle_submit find_issue_with_label
    find_by_status dispatch respond exists path_eq peer_socket socket_dir socket_root
    default_socket_root join of_text split codes int_eq text_eq require_inbound require_label
    results_of answer_from answer_cmd find_prefixed has strip_prefix to_copy add_results
    drop_pending mark_resolved apply_answer close_if_open answer_issue handle_answer
    Labels.ref_label
answers = refl

is_plain : (l : Text) → In l sent.labels → IsPlain l
unfolding IsPlain strip_prefix codes sent_issue
is_plain l (inl e) = rw e (refl, refl)
is_plain l (inr z) = absurd z

is_kept :
    IsSameInbound a deaf contents contents memory-IsLawful memory-IsLawful
      (pos 1)
      filed_there
      worked_on
unfolding IsSameInbound memory contents issue_at comment
is_kept = (refl, λ l h. inl h)

same_rows : waiting.rows ≡ here.rows
unfolding submit_cmd load_issue require_peer ask accepted mark_outbound submission description_of
    memory contents HashMap.get HashMap.insert HashMap.remove HashMap.contains_key list select
    matches issue_at issue_of_row is_free create close label unlabel comment commit push_missing
    inbound_labels add_labels add_note attach create_inbound handle_submit find_issue_with_label
    find_by_status dispatch respond exists path_eq peer_socket socket_dir socket_root
    default_socket_root join of_text split codes int_eq text_eq
same_rows = refl

only_row : (k : ℤ) (i : Issue) → issue_of_row k (HashMap.get k here.rows) ≡ some i → k ≡ pos 1
unfolding HashMap.get issue_of_row
only_row k i h = elim (Bool-cases (pos 1 == k)) [
  | inl e ↦ ground (arith, int_eq_iff (pos 1) k)
  | inr e ↦ absurd (ground arith)
]

is_alone :
    (k : ℤ)
    → IsKnown memory contents memory-IsLawful (Handler.ref_label (codes "5f")) waiting k
    → k ≡ pos 1
unfolding IsKnown Carries contents issue_at
is_alone k (i, at, which, l) =
    only_row k i (ap (λ r. issue_of_row k (HashMap.get k r)) (sym same_rows) ∙ at)

to_a : Reaches answering a waiting (
    answer (
      sent_answer a answering contents contents memory-IsLawful memory-IsLawful
        (codes "5f")
        (contents.comments_of worked_on (pos 1))))
unfolding Reaches
to_a = refl

answer_returns_example :
    let reply =
      sent_answer a answering contents contents memory-IsLawful memory-IsLawful
        (codes "5f")
        (contents.comments_of worked_on (pos 1)) in
    (d : Memory) × (handle_answer memory (codes "b") reply waiting ≡ (ok (pos 1), d))
    × Answer.IsAnswered memory contents memory-IsLawful (codes "b") reply (pos 1) waiting d
    × (contents.issue_of finished (pos 1)
        ≡ some (record (filed memory contents memory-IsLawful no_files (pos 1) sent) {
          status = closed_status;
        }))
unfolding codes sent_issue IsSameInbound
answer_returns_example =
    answer_returns a answering contents contents memory-IsLawful memory-IsLawful sent (pos 1)
      (pos 1) answered waiting there filed_there worked_on finished refl is_plain unseen files
      is_kept to_a is_alone answers
