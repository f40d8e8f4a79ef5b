-- ===== src/Server/Handler.antt =====
-- crossbridge-server/src/handler.rs: requests of clients, as changes of the crosslink database.
-- `materialize` is what attachment::materialize comes to; it does not touch the database.
pub mod Find
pub mod Labels
pub mod Notes
pub mod Submit
pub mod Phases
pub mod Answer
pub mod Again
pub mod Orphans
pub mod Connection
use crossbridge.Prelude.{
  Bool, true, false, not, Option, none, some, List, [], ◌∷◌, ◌++◌, map, filter, contains, is_empty,
  head?, if◌then◌else◌, ◌==◌, Result, ok, err, map_err, ok_or,
}
use crossbridge.Prelude.Text.{Text, codes, text_has_eq}
use crossbridge.Prelude.Action.{Action, pure, raise, lift, gets, map_error, continue, ◌>>=◌, ◌>>◌}
use crossbridge.Prelude.Decimal.{ℤ, display_int}
use crossbridge.Protocol.{
  Attachment, AnswerComment, SubmitIssue, SubmitAnswer, ClientRequest, submit, answer,
  ServerResponse, done, failed, Error, display_error,
}
use crossbridge.Protocol.Framing.{Codec, Read, Write, read_message, write_message}
use crossbridge.Crosslink.{Database, Issue, Comment, open_status, closed_status}
use crossbridge.Server.Attachment.{MaterializedAttachment, format_comment}

abbrev pub answer_instruction_footer : Text
answer_instruction_footer =
    codes "\n\n---\nAfter answering, run: `crossbridge-client answer --issue <id>`"

abbrev pub ref_label : Text → Text
ref_label uuid = codes "xb-ref:" ++ uuid

-- The labels of an inbound issue: five of the program's own, and the client's without repetition.
unfoldable pub push_missing : List Text → List Text → List Text
push_missing labels [] = labels
push_missing labels (l ∷ ls) =
    push_missing (if contains labels l then labels else labels ++ l ∷ []) ls

unfoldable pub inbound_labels : SubmitIssue → List Text
inbound_labels s =
    push_missing
      (codes "type:request"
        ∷ codes "xb:inbound"
        ∷ codes "xb-status:open"
        ∷ (codes "xb-source:" ++ s.source_slug)
        ∷ ref_label s.source_uuid
        ∷ [])
      s.labels

-- The comments of an answer that are copied: results, with the peer's name, that are not there.
unfoldable pub to_copy : Text → List Comment → List AnswerComment → List Text
to_copy peer_slug existing cs =
    filter (λ c. not (contains (map (λ x. x.content) existing) c))
      (map (λ c. codes "[from " ++ peer_slug ++ codes "] " ++ c.content)
        (filter (λ c. c.kind == codes "result") cs))

module _ {D : Type 0} (db : Database D) where
  -- The loop over the two statuses of find_issue_with_label.
  unfoldable pub find_by_status : List Text → Text → D → Result Text (Option ℤ)
  find_by_status [] label d = ok none
  find_by_status (status ∷ rest) label d =
      let later = find_by_status rest label d in
      elim (db.list_issues (some status) (some label) d) [
        | err e ↦ err (codes "listing issues by label " ++ label ++ codes ": " ++ e)
        | ok is ↦ elim (head? is) [ some i ↦ ok (some i.id) | none ↦ later ]
      ]

  unfoldable pub find_issue_with_label : Text → D → Result Text (Option ℤ)
  find_issue_with_label label d = find_by_status (open_status ∷ closed_status ∷ []) label d

  unfoldable pub add_labels : ℤ → List Text → Action D Text Unit
  add_labels id [] = pure tt
  add_labels id (l ∷ ls) = do db.add_label id l; add_labels id ls

  -- Errors here are only logged.
  unfoldable pub add_note : ℤ → Text → Action D Text Unit
  add_note id comment d = let (r, d') = db.add_comment id comment (codes "note") d in (ok tt, d')

  unfoldable pub attach :
      (List Attachment → Result Text MaterializedAttachment)
      → ℤ
      → List Attachment
      → Action D Text Unit
  attach materialize id [] = pure tt
  attach materialize id (a ∷ as') = elim (materialize (a ∷ as')) [
    | ok rec ↦ add_note id (format_comment rec)
    | err e ↦ add_note id (codes "crossbridge: failed to materialize attachments: " ++ e)
  ]

  -- handle_submit after the lookup.
  unfoldable pub create_inbound :
      (List Attachment → Result Text MaterializedAttachment) → SubmitIssue → Action D Text ℤ
  create_inbound materialize s = do
    issue_id ←
        map_error (λ e. codes "creating local issue: " ++ e)
          (db.create_issue s.title (some (s.body ++ answer_instruction_footer)) (codes "high"))
    map_error (λ e. codes "applying labels: " ++ e)
        (db.transaction (add_labels issue_id (inbound_labels s)))
    attach materialize issue_id s.attachments
    pure issue_id

  unfoldable pub handle_submit :
      (List Attachment → Result Text MaterializedAttachment) → SubmitIssue → Action D Text ℤ
  handle_submit materialize s d = elim (find_issue_with_label (ref_label s.source_uuid) d) [
    | err e ↦ (err e, d)
    | ok (some existing) ↦ (ok existing, d)
    | ok none ↦ create_inbound materialize s d
  ]

  unfoldable pub add_results : ℤ → List Text → Action D Text Unit
  add_results id [] = pure tt
  add_results id (c ∷ cs) = do db.add_comment id c (codes "result"); add_results id cs

  -- `xb-status:pending` becomes `xb-status:resolved`.
  unfoldable pub drop_pending : ℤ → List Text → Action D Text Unit
  drop_pending id labels =
      if contains labels (codes "xb-status:pending")
      then db.remove_label id (codes "xb-status:pending")
      else pure tt

  unfoldable pub mark_resolved : ℤ → List Text → Action D Text Unit
  mark_resolved id labels =
      if contains labels (codes "xb-status:resolved")
      then pure tt
      else db.add_label id (codes "xb-status:resolved")

  -- The transaction of handle_answer.
  unfoldable pub apply_answer : ℤ → List Text → Action D Text Unit
  apply_answer id to_copy = do
    add_results id to_copy
    labels ← (λ s. (db.get_labels id s, s))
    drop_pending id labels
    mark_resolved id labels

  unfoldable pub close_if_open : ℤ → Issue → Action D Text Unit
  close_if_open id issue =
      if issue.status == closed_status
      then pure tt
      else map_error (λ e. codes "closing issue " ++ display_int id ++ codes ": " ++ e)
          (db.close_issue id)

  -- handle_answer after the lookup.
  unfoldable pub answer_issue : Text → SubmitAnswer → ℤ → Action D Text ℤ
  answer_issue peer_slug a id = do
    existing ← (λ s. (map_err (λ e. codes "reading comments: " ++ e) (db.get_comments id s), s))
    map_error (λ e. codes "applying answer: " ++ e)
        (db.transaction (apply_answer id (to_copy peer_slug existing a.comments)))
    issue ← (λ s. (
      map_err (λ e. codes "loading issue " ++ display_int id ++ codes ": " ++ e)
          (db.get_issue id s),
      s,
    ))
    found ← lift (ok_or issue (codes "issue " ++ display_int id ++ codes " disappeared"))
    close_if_open id found
    pure id

  unfoldable pub handle_answer : Text → SubmitAnswer → Action D Text ℤ
  handle_answer peer_slug a d = elim (find_issue_with_label (ref_label a.source_uuid) d) [
    | err e ↦ (err e, d)
    | ok none ↦ (err (codes "no local issue with label " ++ ref_label a.source_uuid), d)
    | ok (some id) ↦ answer_issue peer_slug a id d
  ]

  unfoldable pub respond : Result Text ℤ → ServerResponse
  respond (ok id) = done id
  respond (err e) = failed e

  unfoldable pub dispatch :
      (List Attachment → Result Text MaterializedAttachment)
      → Text
      → ClientRequest
      → Action D Text ℤ
  dispatch materialize peer_slug (submit s) = handle_submit materialize s
  dispatch materialize peer_slug (answer a) = handle_answer peer_slug a

  -- The stream is both read and written; what writing the answer to a malformed request comes to
  -- is ignored.
  unfoldable pub handle_connection :
      {S : Type 0}
      → Read S
      → Write S
      → Codec ClientRequest
      → Codec ServerResponse
      → (List Attachment → Result Text MaterializedAttachment)
      → Text
      → Action (S × D) Text Unit
  handle_connection r w requests responses materialize peer_slug (stream, d) =
      let (request, stream') = read_message r requests stream in
      elim request [
        | err e ↦
            let (ignored, stream'') =
              write_message w responses (failed (codes "malformed request: " ++ display_error e))
                stream' in
            (ok tt, (stream'', d))
        | ok q ↦
            let (result, d') = dispatch materialize peer_slug q d in
            let (written, stream'') = write_message w responses (respond result) stream' in
            (
              map_err (λ e. codes "writing response frame: " ++ display_error e) written,
              (stream'', d'),
            )
      ]
