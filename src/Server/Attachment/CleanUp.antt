-- ===== src/Server/Attachment/CleanUp.antt =====
-- crossbridge-server/src/attachment.rs: which names a commit has, and what is left behind.
use crossbridge.Prelude.{
  Bool, true, false, ◌||◌, none, List, [], ◌∷◌, ◌++◌, ◌≡◌, ◌≢◌, refl, inl, inr, sym, ap, subst, ◌∙◌,
  arith, any, nat_eq, map, All, is_empty, if◌then◌else◌, Option-cases, Bool-cases, Result-cases,
  Result, ok,
}
use crossbridge.Prelude.Text.{Text, codes, join, trim}
use crossbridge.Prelude.Action.{Action, bind_ok, lift, map_error, pure, raise}
use crossbridge.Prelude.FilePath
use crossbridge.Prelude.FilePath.{FilePath, of_text, is_under, is_under_refl}
use crossbridge.Prelude.FileSystem.{
  exists, is_file, remove_dir_all, exists-remove_dir_all, remove_dir_all-none,
}
use crossbridge.Protocol.{Attachment}
use crossbridge.Server.Attachment.{
  MaterializedAttachment, Disk, System, check_name, write_file, write_files, commit,
  remove_workspace, run_jj, run_jj_output, jj_stdout, commit_and_clean_up, materialize, check_repo,
  make_tmp_root, remove_stale, tmp_root,
}

-- Not empty, with neither a slash nor a backslash.
unfoldable pub IsFileName : Text → Type 0
IsFileName name = (name ≢ []) × (any (λ c. nat_eq c b'/' || nat_eq c 0x5C) name ≡ false)

check_name_ok : (name : Text) → check_name name ≡ ok tt → IsFileName name
unfolding check_name IsFileName
check_name_ok [] h = ground arith
check_name_ok (c ∷ name) h = ground arith

finish : Text → List Text → Action Disk Text MaterializedAttachment
finish out names =
    if is_empty (trim out)
    then raise (codes "jj log returned empty commit_id")
    else pure (record { commit_id = trim out; filenames = names })

finish_ok :
    (out : Text) (names : List Text) (d d' : Disk) (rec : MaterializedAttachment)
    → finish out names d ≡ (ok rec, d')
    → (rec.filenames ≡ names) × (rec.commit_id ≢ [])
unfolding finish
finish_ok out names d d' rec h = ground (arith)

module _ (sys : System) where
  write_files-IsFileName :
      (workspace : FilePath) (as' : List Attachment) (d d' : Disk) (names : List Text)
      → write_files sys workspace as' d ≡ (ok names, d')
      → (names ≡ map (λ a. a.filename) as') × All IsFileName names
  unfolding write_files
  write_files-IsFileName workspace [] d d' names h =
      let none_left : [] ≡ names = ground arith in
      subst (λ (ns : List Text). (ns ≡ []) × All IsFileName ns) none_left (refl, tt)
  write_files-IsFileName workspace (a ∷ as') d d' names h =
      let (u, d1, good, r1) = bind_ok (lift (check_name a.filename)) _ d d' names h in
      let (v, d2, wrote, r2) =
        bind_ok (write_file sys (FilePath.join workspace (of_text a.filename)) a.bytes) _ d1 d'
          names r1 in
      let (more, d3, rest, r3) = bind_ok (write_files sys workspace as') _ d2 d' names r2 in
      let (same, all) = write_files-IsFileName workspace as' d2 d3 more rest in
      let whole : a.filename ∷ more ≡ names = ground arith in
      subst (λ (ns : List Text). (ns ≡ map (λ b. b.filename) (a ∷ as')) × All IsFileName ns) whole
        (ap (◌∷◌ a.filename) same, (check_name_ok a.filename (ground arith), all))

  commit_names :
      (repo_path workspace : FilePath) (unique : Text) (as' : List Attachment) (d d' : Disk)
      (rec : MaterializedAttachment)
      → commit sys repo_path workspace unique as' d ≡ (ok rec, d')
      → (rec.filenames ≡ map (λ a. a.filename) as')
        × All IsFileName rec.filenames
        × (rec.commit_id ≢ [])
  unfolding commit finish
  commit_names repo_path workspace unique as' d d' rec h =
      let (u, d1, added, r1) =
        bind_ok
          (map_error (λ e. codes "jj workspace add: " ++ e)
            (run_jj sys repo_path (
              codes "workspace"
              ∷ codes "add"
              ∷ codes "--name"
              ∷ unique
              ∷ FilePath.display workspace
              ∷ [])))
          _ d d' rec h in
      let (names, d2, wrote, r2) = bind_ok (write_files sys workspace as') _ d1 d' rec r1 in
      let (v, d3, described, r3) =
        bind_ok
          (map_error (λ e. codes "jj describe: " ++ e)
            (run_jj sys workspace (
              codes "describe"
              ∷ codes "-m"
              ∷ (codes "crossbridge attachment: " ++ join (codes ", ") names)
              ∷ [])))
          _ d2 d' rec r2 in
      let (out, d4, logged, r4) =
        bind_ok
          (map_error (λ e. codes "jj log -r @: " ++ e)
            (jj_stdout sys workspace (
              codes "log"
              ∷ codes "-r"
              ∷ codes "@"
              ∷ codes "--no-graph"
              ∷ codes "-T"
              ∷ codes "commit_id"
              ∷ [])))
          _ d3 d' rec r3 in
      let (same, found) = finish_ok out names d4 d' rec r4 in
      let (all_names, all_good) = write_files-IsFileName workspace as' d1 d2 names wrote in
      (same ∙ all_names, subst (All IsFileName) (sym same) all_good, found)

  -- What jj leaves, whatever is made of its outcome.
  run_jj-leaves :
      (cwd : FilePath) (args : List Text) (d : Disk)
      → (run_jj sys cwd args d).1 ≡ (sys.jj cwd args d).1
  unfolding run_jj run_jj_output
  run_jj-leaves cwd args d = elim (Result-cases (sys.jj cwd args d).0) [
    | inr (e, h) ↦ ground (arith, h)
    | inl (out, h) ↦ elim (Bool-cases out.success) [
      | inl k ↦ ground (arith, h, k)
      | inr k ↦ ground (arith, h, k)
    ]
  ]

  workspace-gone :
      (workspace q : FilePath)
      → sys.remove_dir workspace ≡ none
      → (t : Disk) → is_file t.fs workspace ≡ false
      → is_under workspace q ≡ true
      → exists q (remove_workspace sys workspace t).1.fs ≡ false
  unfolding remove_workspace
  workspace-gone workspace q willing t no_file under =
      elim (Option-cases (remove_dir_all workspace t.fs)) [
        | inl e ↦ ground (arith, willing, e, remove_dir_all-none workspace q t.fs e no_file under)
        | inr (fs, e) ↦
            ground (arith, willing, e, exists-remove_dir_all workspace q t.fs fs e, under)
      ]

  abbrev pub forget_args : Text → List Text
  forget_args unique = codes "workspace" ∷ codes "forget" ∷ unique ∷ []

  -- Whatever jj and the commit came to, and with the same result: nothing is left at or below the
  -- workspace, and jj does not know it any more. This is where the system does not refuse to remove
  -- the workspace, `jj workspace forget` after the commit makes jj not know it and leaves no plain
  -- file at its path, and removing files does not make jj know it.
  pub clean_up_lem :
      (repo_path workspace : FilePath) (unique : Text) (as' : List Attachment) (known : Disk → Bool)
      (d : Disk)
      → let d1 = (commit sys repo_path workspace unique as' d).1 in
        known (sys.jj repo_path (forget_args unique) d1).1 ≡ false
        → let d1 = (commit sys repo_path workspace unique as' d).1 in
          is_file (sys.jj repo_path (forget_args unique) d1).1.fs workspace ≡ false
          → ((t : Disk) → known t ≡ false → known (remove_workspace sys workspace t).1 ≡ false)
          → sys.remove_dir workspace ≡ none
          → let (result, t) = commit_and_clean_up sys repo_path workspace unique as' d in
            ((q : FilePath) → is_under workspace q ≡ true → exists q t.fs ≡ false)
            × (known t ≡ false)
            × (result ≡ (commit sys repo_path workspace unique as' d).0)
  unfolding commit_and_clean_up
  clean_up_lem repo_path workspace unique as' known d forgets no_file keeps willing =
      let d1 : Disk = (commit sys repo_path workspace unique as' d).1 in
      let left = run_jj-leaves repo_path (forget_args unique) d1 in
      let d2 : Disk = (run_jj sys repo_path (forget_args unique) d1).1 in
      (
        λ q under.
            workspace-gone workspace q willing d2
              (ap (λ (t : Disk). is_file t.fs workspace) left ∙ no_file) under,
        keeps d2 (ap known left ∙ forgets),
        refl,
      )

  -- A commit has the file names of the attachments, in order, each of them not empty and with no
  -- slash or backslash, and its id is not empty.
  pub materialize_names :
      (repo_path : FilePath) (unique : Text) (as' : List Attachment) (d d' : Disk)
      (rec : MaterializedAttachment)
      → materialize sys repo_path unique as' d ≡ (ok rec, d')
      → (rec.filenames ≡ map (λ a. a.filename) as')
        × All IsFileName rec.filenames
        × (rec.commit_id ≢ [])
  unfolding materialize commit_and_clean_up
  materialize_names repo_path unique as' d d' rec h =
      let workspace = FilePath.join (tmp_root repo_path) (of_text unique) in
      let (u, d1, checked, r1) = bind_ok (check_repo sys repo_path as') _ d d' rec h in
      let (v, d2, made, r2) = bind_ok (make_tmp_root sys (tmp_root repo_path)) _ d1 d' rec r1 in
      let (w, d3, cleared, r3) = bind_ok (remove_stale sys workspace) _ d2 d' rec r2 in
      let after : Disk = (commit sys repo_path workspace unique as' d3).1 in
      commit_names repo_path workspace unique as' d3 after rec (
        split (commit sys repo_path workspace unique as' d3)
          (ap (λ (q : Result Text MaterializedAttachment × Disk). q.0) r3))
    where
      split : (q : Result Text MaterializedAttachment × Disk) → q.0 ≡ ok rec → q ≡ (ok rec, q.1)
      split q e = ap (λ (r : Result Text MaterializedAttachment). (r, q.1)) e
