-- ===== src/Client/Commands.antt =====
-- crossbridge-client/src/main.rs: the commands on the local database, which is open. The answer of a
-- command is the line that it prints.
pub mod Steps
pub mod Marks
pub mod Root
pub mod Failures
pub mod Answers
use crossbridge.Prelude.{
  ℕ, zero, suc, ◌+◌, length, Bool, true, false, not, Option, none, some, List, [], ◌∷◌, ◌++◌, map,
  filter, contains, if◌then◌else◌, ◌==◌, Result, ok, err, map_err, ok_or,
}
use crossbridge.Prelude.Text.{Text, codes, text_has_eq}
use crossbridge.Prelude.Action.{Action, pure, raise, lift, gets, map_error, continue, ◌>>=◌, ◌>>◌}
use crossbridge.Prelude.Decimal.{ℤ, display_int}
use crossbridge.Prelude.FilePath.{FilePath, of_text, join, parent}
use crossbridge.Prelude.FileSystem.{FileSystem, exists}
use crossbridge.Protocol.{
  Error, display_error, AnswerComment, SubmitIssue, SubmitAnswer, ClientRequest, submit, answer,
  ServerResponse, done, failed,
}
use crossbridge.Protocol.Framing.{Codec, Read, Write, read_message_sync, write_message_sync}
use crossbridge.Protocol.Roots.{Env, default_socket_root}
use crossbridge.Crosslink.{Database, Issue, Comment}
use crossbridge.Client.Labels.{
  inbound, outbound, status_pending, status_answered, source_prefix, ref_prefix, ref_label,
  find_prefixed, has,
}

-- socket_root of lib.rs, and socket_dir.
unfoldable pub socket_root : Env → FilePath
socket_root env = default_socket_root env

unfoldable pub socket_dir : Env → Text → FilePath
unfolding socket_root
socket_dir env own_slug = join (socket_root env) (of_text own_slug)

-- The socket of a peer, as submit_cmd and answer_cmd build it.
unfoldable pub peer_socket : Env → Text → Text → FilePath
unfolding socket_dir
peer_socket env own target = join (socket_dir env own) (of_text (target ++ codes ".socket"))

-- The loop of repo_root_from: `fuel` bounds the directories that it goes up.
unfoldable pub root_above : ℕ → FileSystem → FilePath → FilePath → FilePath
root_above zero fs start cur = start
root_above (suc fuel) fs start cur =
    let above : FilePath = elim (parent cur) [
      | some p ↦ root_above fuel fs start p
      | none ↦ start
    ] in
    if exists (join (join cur (of_text (codes ".crosslink"))) (of_text (codes "issues.db"))) fs
    then cur
    else above

-- A path has fewer directories above it than this.
unfoldable pub repo_root_from : FileSystem → FilePath → FilePath
repo_root_from fs start = root_above (length start.components + 2) fs start start

-- A connected stream that the client writes to and reads from; `connect` is that of the system.
module _ {S : Type 0} (connect : FilePath → Result Text S) (r : Read S) (w : Write S)
    (requests : Codec ClientRequest) (responses : Codec ServerResponse) where
  unfoldable pub round_trip : FilePath → Text → ClientRequest → Result Text ServerResponse
  round_trip path peer_label request = elim (connect path) [
    | err e ↦ err (codes "cannot reach peer '" ++ peer_label ++ codes "': " ++ e)
    | ok s ↦
        let (sent, s') = write_message_sync w requests request s in
        let (response, s'') = read_message_sync r responses s' in
        elim sent [
          | err e ↦ err (
              codes "failed to send request to peer '"
              ++ peer_label
              ++ codes "': "
              ++ display_error e)
          | ok u ↦
              map_err
                (λ e.
                  codes "failed to read response from peer '"
                  ++ peer_label
                  ++ codes "': "
                  ++ display_error e)
                response
        ]
  ]

abbrev number : ℤ → Text
number id = codes "#" ++ display_int id

unfoldable pub description_of : Issue → Text
description_of i = elim i.description [ some b ↦ b | none ↦ [] ]

-- `ServerResponse::Error` as an error.
unfoldable pub accepted : ServerResponse → Result Text ℤ
accepted (done id) = ok id
accepted (failed message) = err message

module _ {D : Type 0} (db : Database D) (fs : FileSystem) (env : Env)
    (exchange : FilePath → Text → ClientRequest → Result Text ServerResponse) where
  unfoldable pub load_issue : ℤ → Action D Text Issue
  load_issue id = do
    o ← (λ s. (db.get_issue id s, s))
    lift (ok_or o (codes "issue " ++ number id ++ codes " not found"))

  unfoldable pub require_peer : Text → Text → Action D Text Unit
  require_peer own target =
      if exists (peer_socket env own target) fs
      then pure tt
      else raise (codes "peer '" ++ target ++ codes "' not available (not connected)")

  unfoldable pub ask : Text → Text → ClientRequest → Action D Text ℤ
  ask own target request = do
    response ← lift (exchange (peer_socket env own target) target request)
    lift (accepted response)

  -- The labels of an issue that was submitted.
  unfoldable pub mark_outbound : ℤ → Text → Action D Text Unit
  mark_outbound id uuid = do
    db.add_label id outbound
    db.add_label id status_pending
    db.add_label id (ref_label uuid)

  unfoldable pub submission : Text → Issue → Text → List Text → ClientRequest
  submission own i uuid labels = submit (record {
    title = i.title;
    body = description_of i;
    labels = labels;
    source_slug = own;
    source_uuid = uuid;
    attachments = [];
  })

  unfoldable pub submit_cmd : Text → ℤ → Text → Action D Text Text
  submit_cmd own issue_id target = do
    issue ← load_issue issue_id
    uuid ← (λ s. (
      map_err
          (λ e. codes "issue " ++ number issue_id ++ codes " has no UUID in the local DB: " ++ e)
          (db.get_issue_uuid_by_id issue.id s),
      s,
    ))
    labels ← (λ s. (db.get_labels issue.id s, s))
    require_peer own target
    target_id ← ask own target (submission own issue uuid labels)
    mark_outbound issue.id uuid
    pure (
        codes "submitted issue "
        ++ number issue_id
        ++ codes " to '"
        ++ target
        ++ codes "' (remote id "
        ++ display_int target_id
        ++ codes ")")

  unfoldable pub require_label : ℤ → List Text → Text → Text → Action D Text Text
  require_label id labels prefix what = lift (
      ok_or (find_prefixed labels prefix) (
        codes "issue "
        ++ number id
        ++ codes " is missing required label '"
        ++ prefix
        ++ what
        ++ codes "'"))

  unfoldable pub require_inbound : ℤ → List Text → Action D Text Unit
  require_inbound id labels =
      if has labels inbound
      then pure tt
      else raise (codes "issue " ++ number id ++ codes " is not an inbound crossbridge issue")

  unfoldable pub results_of : List Comment → List AnswerComment
  results_of cs =
      map (λ c. record { content = c.content; kind = c.kind })
        (filter (λ c. c.kind == codes "result") cs)

  -- answer_cmd once the labels have given where the issue came from.
  unfoldable pub answer_from : Text → ℤ → Issue → Text → Text → Action D Text Text
  answer_from own issue_id issue source_slug source_uuid = do
    comments ← (λ s. (db.get_comments issue.id s, s))
    require_peer own source_slug
    remote ← ask own source_slug (
        answer
          (record { source_uuid = source_uuid; comments = results_of comments; attachments = [] }))
    db.add_label issue.id status_answered
    db.close_issue issue.id
    pure (
        codes "answered issue "
        ++ number issue_id
        ++ codes " -> '"
        ++ source_slug
        ++ codes "' (remote id "
        ++ display_int remote
        ++ codes ")")

  unfoldable pub answer_cmd : Text → ℤ → Action D Text Text
  answer_cmd own issue_id = do
    issue ← load_issue issue_id
    labels ← (λ s. (db.get_labels issue.id s, s))
    require_inbound issue_id labels
    source_slug ← require_label issue_id labels source_prefix (codes "<slug>")
    source_uuid ← require_label issue_id labels ref_prefix (codes "<uuid>")
    answer_from own issue_id issue source_slug source_uuid
