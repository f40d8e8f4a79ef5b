-- ===== src/Server/Attachment.antt =====
-- crossbridge-server/src/attachment.rs: attachments become a commit. The `jj` command is a parameter,
-- which may change the files, and so is what the system refuses. Paths are text, so that the
-- workspace is always UTF-8.
pub mod CleanUp
use crossbridge.Prelude.{
  ℕ, Bool, true, false, not, ◌&&◌, ◌||◌, Option, none, some, List, [], ◌∷◌, ◌++◌, any, nat_eq,
  is_empty, if◌then◌else◌, ◌==◌, Result, ok, err,
}
use crossbridge.Prelude.Text.{Text, codes, join, trim}
use crossbridge.Prelude.Action.{Action, pure, raise, lift, gets, map_error, continue, ◌>>=◌, ◌>>◌}
use crossbridge.Prelude.Decimal.{decimal}
use crossbridge.Prelude.HashMap
use crossbridge.Prelude.FilePath
use crossbridge.Prelude.FilePath.{FilePath, of_text, path_has_eq}
use crossbridge.Prelude.FileSystem.{
  FileSystem, FileKind, dir, file, exists, is_file, create_dir_all, remove_dir_all,
}
use crossbridge.Protocol.{Attachment}
use crossbridge.Protocol.Framing.{Bytes}

pub record MaterializedAttachment : Type 0 where
  pub commit_id : Text
  pub filenames : List Text

-- `since` is the time since the epoch in nanoseconds, which asking for it may not give.
unfoldable pub unique_name : ℕ → Option ℕ → Text
unique_name process_id since =
    codes "xb-attach-"
    ++ decimal process_id
    ++ codes "-"
    ++ decimal (elim since [ some nanos ↦ nanos | none ↦ 0 ])

unfoldable pub format_comment : MaterializedAttachment → Text
format_comment rec =
    codes "crossbridge: materialized attachment(s) ["
    ++ join (codes ", ") rec.filenames
    ++ codes "] as commit "
    ++ rec.commit_id

-- The files that are there, and the contents written, the newest first.
pub record Disk : Type 0 where
  pub fs : FileSystem
  pub written : List (FilePath × Bytes)

pub record JjOutput : Type 0 where
  pub success : Bool
  pub stdout : Text
  pub stderr : Text

-- The command in a directory with its arguments, and the system's errors of the calls of `std::fs`.
pub record System : Type 0 where
  pub jj : FilePath → List Text → Action Disk Text JjOutput
  pub create_dir : FilePath → Option Text
  pub remove_dir : FilePath → Option Text
  pub write : FilePath → Option Text

-- A file name is not a path.
unfoldable pub check_name : Text → Result Text Unit
check_name name =
    if is_empty name
    then err (codes "attachment with empty filename")
    else if any (λ c. nat_eq c b'/' || nat_eq c 0x5C) name
    then err (codes "attachment filename `" ++ name ++ codes "` must not contain path separators")
    else ok tt

unfoldable pub tmp_root : FilePath → FilePath
tmp_root repo_path = FilePath.join repo_path (of_text (codes ".crossbridge-tmp"))

module _ (sys : System) where
  unfoldable pub run_jj_output : FilePath → List Text → Action Disk Text JjOutput
  run_jj_output cwd args = do
    out ←
        map_error (λ e. codes "running `jj " ++ join (codes " ") args ++ codes "`: " ++ e)
          (sys.jj cwd args)
    if out.success
        then pure out
        else raise (
            codes "`jj "
            ++ join (codes " ") args
            ++ codes "` failed in "
            ++ FilePath.display cwd
            ++ codes ": "
            ++ trim out.stderr)

  unfoldable pub run_jj : FilePath → List Text → Action Disk Text Unit
  run_jj cwd args = do run_jj_output cwd args; pure tt

  unfoldable pub jj_stdout : FilePath → List Text → Action Disk Text Text
  jj_stdout cwd args = do out ← run_jj_output cwd args; pure out.stdout

  unfoldable pub write_file : FilePath → Bytes → Action Disk Text Unit
  write_file p data_bytes d = elim (sys.write p) [
    | some e ↦ (err (codes "writing attachment " ++ FilePath.display p ++ codes ": " ++ e), d)
    | none ↦
        (ok tt, record { fs = HashMap.insert p file d.fs; written = (p, data_bytes) ∷ d.written })
  ]

  -- The loop over the attachments: the names that were written.
  unfoldable pub write_files : FilePath → List Attachment → Action Disk Text (List Text)
  write_files workspace [] = pure []
  write_files workspace (a ∷ as') = do
    lift (check_name a.filename)
    write_file (FilePath.join workspace (of_text a.filename)) a.bytes
    names ← write_files workspace as'
    pure (a.filename ∷ names)

  -- The closure whose result materialize returns.
  unfoldable pub commit :
      FilePath → FilePath → Text → List Attachment → Action Disk Text MaterializedAttachment
  commit repo_path workspace unique attachments = do
    map_error (λ e. codes "jj workspace add: " ++ e)
        (run_jj repo_path (
          codes "workspace"
          ∷ codes "add"
          ∷ codes "--name"
          ∷ unique
          ∷ FilePath.display workspace
          ∷ []))
    names ← write_files workspace attachments
    map_error (λ e. codes "jj describe: " ++ e)
        (run_jj workspace (
          codes "describe"
          ∷ codes "-m"
          ∷ (codes "crossbridge attachment: " ++ join (codes ", ") names)
          ∷ []))
    out ←
        map_error (λ e. codes "jj log -r @: " ++ e)
          (jj_stdout workspace (
            codes "log"
            ∷ codes "-r"
            ∷ codes "@"
            ∷ codes "--no-graph"
            ∷ codes "-T"
            ∷ codes "commit_id"
            ∷ []))
    if is_empty (trim out)
        then raise (codes "jj log returned empty commit_id")
        else pure (record { commit_id = trim out; filenames = names })

  unfoldable pub make_tmp_root : FilePath → Action Disk Text Unit
  make_tmp_root p d = elim (sys.create_dir p) [
    | some e ↦ (err (codes "creating " ++ FilePath.display p ++ codes ": " ++ e), d)
    | none ↦ elim (create_dir_all p d.fs) [
      | none ↦ (err (codes "creating " ++ FilePath.display p ++ codes ": File exists"), d)
      | some fs ↦ (ok tt, record d { fs = fs })
    ]
  ]

  unfoldable pub remove_workspace : FilePath → Action Disk Text Unit
  remove_workspace p d = elim (sys.remove_dir p) [
    | some e ↦ (err e, d)
    | none ↦ elim (remove_dir_all p d.fs) [
      | none ↦
          let reason =
            if is_file d.fs p then codes "Not a directory" else codes "No such file or directory" in
          (err reason, d)
      | some fs ↦ (ok tt, record d { fs = fs })
    ]
  ]

  unfoldable pub remove_stale : FilePath → Action Disk Text Unit
  remove_stale p d = if exists p d.fs then remove_workspace p d else (ok tt, d)

  -- The commit and the clean-up, whose errors are ignored.
  unfoldable pub commit_and_clean_up :
      FilePath → FilePath → Text → List Attachment → Action Disk Text MaterializedAttachment
  commit_and_clean_up repo_path workspace unique attachments d =
      let (result, d1) = commit repo_path workspace unique attachments d in
      let (forgotten, d2) =
        run_jj repo_path (codes "workspace" ∷ codes "forget" ∷ unique ∷ []) d1 in
      let (removed, d3) = remove_workspace workspace d2 in (result, d3)

  -- `unique` is what unique_name made up.
  unfoldable pub check_repo : FilePath → List Attachment → Action Disk Text Unit
  check_repo repo_path attachments d =
      let has_jj =
        elim (HashMap.get (FilePath.join repo_path (of_text (codes ".jj"))) d.fs) as (λ o. Bool) [
          | some dir ↦ true
          | some file ↦ false
          | none ↦ false
        ] in
      let has_git = exists (FilePath.join repo_path (of_text (codes ".git"))) d.fs in
      if is_empty attachments
      then (err (codes "no attachments to materialize"), d)
      else if not has_jj && not has_git
      then (err (FilePath.display repo_path ++ codes " is neither a jj nor a git repo"), d)
      else (ok tt, d)

  unfoldable pub materialize :
      FilePath → Text → List Attachment → Action Disk Text MaterializedAttachment
  materialize repo_path unique attachments = do
    check_repo repo_path attachments
    make_tmp_root (tmp_root repo_path)
    remove_stale (FilePath.join (tmp_root repo_path) (of_text unique))
    commit_and_clean_up repo_path (FilePath.join (tmp_root repo_path) (of_text unique)) unique
        attachments
