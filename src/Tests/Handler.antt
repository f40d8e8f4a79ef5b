-- ===== src/Tests/Handler.antt =====
-- Requests against a database in memory with one issue that was submitted to a peer.
use crossbridge.Prelude.{
  none, some, List, [], ◌∷◌, ◌++◌, ◌≡◌, refl, ap, ◌∙◌, ◌==◌, if◌then◌else◌, Result, ok, err,
}
use crossbridge.Prelude.Text.{Text, codes, text_eq, text_has_eq}
use crossbridge.Prelude.HashMap
use crossbridge.Prelude.Decimal.{pos, int_eq, int_has_eq}
use crossbridge.Protocol.{Attachment, SubmitIssue, SubmitAnswer, answer, failed, io, display_error}
use crossbridge.Protocol.Framing.{
  eof, encode, vec_write, write_message_sync, slice_read, slice_read_exact, read_message_sync,
}
use crossbridge.Protocol.Framing.RoundTrip.{frame}
use crossbridge.Crosslink.{open_status}
use crossbridge.Server.Attachment.{MaterializedAttachment}
use crossbridge.Server.Handler.{
  push_missing, inbound_labels, find_by_status, find_issue_with_label, add_labels, add_note, attach,
  create_inbound, handle_submit, ref_label, to_copy, add_results, drop_pending, mark_resolved,
  apply_answer, close_if_open, answer_issue, handle_answer, respond, dispatch, handle_connection,
}
use crossbridge.Server.Handler.Find.{IsKnown}
use crossbridge.Server.Handler.Submit.{submit_files_issue, submit_again, IsFiled}
use crossbridge.Server.Handler.Answer.{answer_effect, IsAnswered}
use crossbridge.Server.Handler.Again.{answer_again}
use crossbridge.Server.Handler.Connection.{malformed_is_answered, duplex_read, duplex_write}
use crossbridge.Tests.Codecs.{
  requests, responses, requests-IsFaithful, responses-IsFaithful, encode_request, encode_answer,
  encode_response,
}
use crossbridge.Prelude.FilePath.{FilePath, of_text}
use crossbridge.Client.Commands.{round_trip}
use crossbridge.Exchange.Wire.{Wire, fresh, wire_read, wire_write, served, round_trip_carries}
use crossbridge.Tests.Memory.{
  Memory, memory, contents, memory-IsLawful, issue_of_row, issue_at, is_free, create, close, label,
  unlabel, comment, commit, matches, select, list,
}

abbrev start : Memory
start = record {
  rows = (pos 1, record { title = codes "t"; description = none; status = open_status }) ∷ [];
  labels = λ j. if j == pos 1 then codes "xb-status:pending" ∷ codes "xb-ref:u" ∷ [] else [];
  comments = λ j. [];
  next = 2;
}

abbrev no_files : List Attachment → Result Text MaterializedAttachment
no_files as' = err (codes "no repository")

abbrev request : SubmitIssue
request = record {
  title = codes "q";
  body = codes "b";
  labels = codes "x" ∷ [];
  source_slug = codes "s";
  source_uuid = codes "v";
  attachments = [];
}

abbrev reply : SubmitAnswer
reply = record {
  source_uuid = codes "u";
  comments = record { content = codes "yes"; kind = codes "result" } ∷ [];
  attachments = [];
}

-- The request as a client would repeat it.
abbrev submitted : Memory
submitted = (handle_submit memory no_files request start).1

unseen : find_issue_with_label memory (ref_label (codes "v")) start ≡ ok none
unfolding codes text_eq int_eq find_issue_with_label find_by_status HashMap.get HashMap.insert
    HashMap.remove HashMap.contains_key memory list select matches issue_at issue_of_row is_free
    create close label unlabel comment commit push_missing inbound_labels add_labels add_note attach
    create_inbound handle_submit to_copy add_results drop_pending mark_resolved apply_answer
    close_if_open answer_issue handle_answer
unseen = refl

accepted : handle_submit memory no_files request start ≡ (ok (pos 2), submitted)
unfolding codes text_eq int_eq find_issue_with_label find_by_status HashMap.get HashMap.insert
    HashMap.remove HashMap.contains_key memory list select matches issue_at issue_of_row is_free
    create close label unlabel comment commit push_missing inbound_labels add_labels add_note attach
    create_inbound handle_submit to_copy add_results drop_pending mark_resolved apply_answer
    close_if_open answer_issue handle_answer
accepted = refl

submit_files_issue_example :
    IsFiled memory contents memory-IsLawful no_files request (pos 2) start submitted
submit_files_issue_example =
    submit_files_issue memory contents memory-IsLawful no_files request start submitted (pos 2)
      unseen accepted

seen : find_issue_with_label memory (ref_label (codes "v")) submitted ≡ ok (some (pos 2))
unfolding codes text_eq int_eq find_issue_with_label find_by_status HashMap.get HashMap.insert
    HashMap.remove HashMap.contains_key memory list select matches issue_at issue_of_row is_free
    create close label unlabel comment commit push_missing inbound_labels add_labels add_note attach
    create_inbound handle_submit to_copy add_results drop_pending mark_resolved apply_answer
    close_if_open answer_issue handle_answer
seen = refl

submit_again_example : handle_submit memory no_files request submitted ≡ (ok (pos 2), submitted)
submit_again_example =
    submit_again memory contents memory-IsLawful no_files request request start submitted (pos 2)
      (some (pos 2)) refl accepted seen

abbrev answered : Memory
answered = (handle_answer memory (codes "p") reply start).1

abbrev answered_twice : Memory
answered_twice = (handle_answer memory (codes "p") reply answered).1

is_answered : handle_answer memory (codes "p") reply start ≡ (ok (pos 1), answered)
unfolding codes text_eq int_eq find_issue_with_label find_by_status HashMap.get HashMap.insert
    HashMap.remove HashMap.contains_key memory list select matches issue_at issue_of_row is_free
    create close label unlabel comment commit push_missing inbound_labels add_labels add_note attach
    create_inbound handle_submit to_copy add_results drop_pending mark_resolved apply_answer
    close_if_open answer_issue handle_answer
is_answered = refl

is_answered_again : handle_answer memory (codes "p") reply answered ≡ (ok (pos 1), answered_twice)
unfolding codes text_eq int_eq find_issue_with_label find_by_status HashMap.get HashMap.insert
    HashMap.remove HashMap.contains_key memory list select matches issue_at issue_of_row is_free
    create close label unlabel comment commit push_missing inbound_labels add_labels add_note attach
    create_inbound handle_submit to_copy add_results drop_pending mark_resolved apply_answer
    close_if_open answer_issue handle_answer
is_answered_again = refl

answer_effect_example :
    IsKnown memory contents memory-IsLawful (ref_label (codes "u")) start (pos 1)
    × IsAnswered memory contents memory-IsLawful (codes "p") reply (pos 1) start answered
answer_effect_example =
    answer_effect memory contents memory-IsLawful (codes "p") reply start answered (pos 1)
      is_answered

answer_again_example : answered_twice.comments (pos 1) ≡ answered.comments (pos 1)
unfolding contents
answer_again_example =
    (answer_again memory contents memory-IsLawful (codes "p") reply start answered answered_twice
      (pos 1) is_answered is_answered_again).0

abbrev stray : SubmitAnswer
stray = record reply { source_uuid = codes "v" }

abbrev question : SubmitAnswer
question = record { source_uuid = codes "u"; comments = []; attachments = [] }

abbrev closed : Memory
closed = (handle_answer memory (codes "p") question start).1

framed : encode requests (answer question) ≡ ok (codes "u")
unfolding encode encode_request encode_answer codes
framed = refl

carried_out : dispatch memory no_files (codes "p") (answer question) start ≡ (ok (pos 1), closed)
unfolding codes text_eq int_eq find_issue_with_label find_by_status HashMap.get HashMap.insert
    HashMap.remove HashMap.contains_key memory list select matches issue_at issue_of_row is_free
    create close label unlabel comment commit push_missing inbound_labels add_labels add_note attach
    create_inbound handle_submit to_copy add_results drop_pending mark_resolved apply_answer
    close_if_open answer_issue handle_answer dispatch
carried_out = refl

fits : encode responses (respond memory (ok (pos 1))) ≡ ok (1 ∷ 1 ∷ [])
unfolding encode encode_response respond
fits = refl

abbrev connects : FilePath → Result Text Wire
connects path = ok fresh

carried_fits :
    encode responses
      (respond memory (dispatch memory no_files (codes "p") (answer question) start).0)
    ≡ ok (1 ∷ 1 ∷ [])
carried_fits = ap (λ r. encode responses (respond memory r.0)) carried_out ∙ fits

round_trip_carries_example :
    (round_trip connects
        (wire_read (λ b. (served memory requests responses no_files (codes "p") start b).0))
        wire_write
        requests
        responses
        (of_text (codes "/s"))
        (codes "q")
        (answer question)
      ≡ ok (respond memory (dispatch memory no_files (codes "p") (answer question) start).0))
    × ((served memory requests responses no_files
          (codes "p")
          start
          (write_message_sync vec_write requests (answer question) []).1).1
        ≡ (dispatch memory no_files (codes "p") (answer question) start).1)
round_trip_carries_example =
    round_trip_carries memory requests responses no_files (codes "p") start connects
      (of_text (codes "/s")) (codes "q") (answer question) (codes "u") (1 ∷ 1 ∷ [])
      requests-IsFaithful responses-IsFaithful refl framed carried_fits

abbrev complaint : Text
complaint = codes "malformed request: " ++ display_error (io eof)

cut_short : read_message_sync slice_read requests [] ≡ (err (io eof), [])
unfolding read_message_sync slice_read_exact
cut_short = refl

complaint_fits : encode responses (failed complaint) ≡ ok (0 ∷ complaint)
unfolding encode encode_response codes display_error
complaint_fits = refl

malformed_is_answered_example :
    (handle_connection memory duplex_read duplex_write requests responses no_files
        (codes "p")
        (([], []), start)
      ≡ (ok tt, (([], frame (0 ∷ complaint)), start)))
    × (read_message_sync slice_read responses (frame (0 ∷ complaint)) ≡ (ok (failed complaint), []))
malformed_is_answered_example =
    malformed_is_answered memory requests responses no_files (codes "p") responses-IsFaithful [] []
      (0 ∷ complaint) (io eof) start cut_short complaint_fits
