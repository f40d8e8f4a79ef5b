-- ===== src/Tests/Server.antt =====
-- A commit of one attachment, and a session of two notifications.
use crossbridge.Prelude.{
  Option-cases, inl, inr, arith, ℕ, Bool, true, false, if◌then◌else◌, ◌==◌, none, some, List, [],
  ◌∷◌, ◌≡◌, ◌≢◌, refl, map, All, ok, contains,
}
use crossbridge.Prelude.Text.{
  Text, codes, text_eq, text_has_eq, split, join, trim, trim_end_matches, drop_while, is_whitespace,
}
use crossbridge.Prelude.Action.{Action}
use crossbridge.Prelude.HashMap
use crossbridge.Prelude.FilePath
use crossbridge.Prelude.FilePath.{
  FilePath, of_text, path_eq, path_has_eq, is_under, strip_components,
}
use crossbridge.Prelude.FileSystem.{
  dir, exists, is_file, create_dir_all, make_dirs, ancestors, heads, remove_dir_all, remove_under,
  exists-remove_dir_all,
}
use crossbridge.Protocol.{Attachment, peer_joined, peer_left}
use crossbridge.Server.Attachment.{
  MaterializedAttachment, Disk, System, JjOutput, check_name, tmp_root, run_jj_output, run_jj,
  jj_stdout, write_file, write_files, commit, make_tmp_root, remove_workspace, remove_stale,
  commit_and_clean_up, check_repo, materialize,
}
use crossbridge.Server.Attachment.CleanUp.{IsFileName, forget_args, clean_up_lem, materialize_names}
use crossbridge.Server.Listeners.{World, new}
use crossbridge.Server.Session.{Input, notified, serve_one_session}
use crossbridge.Server.Session.Told.{told, serve_one_session-IsTold}

-- `jj` as one that does nothing and prints `7f`.
abbrev idle_system : System
idle_system = record {
  jj = λ cwd args d. (ok (record { success = true; stdout = codes "7f\n"; stderr = [] }), d);
  create_dir = λ p. none;
  remove_dir = λ p. none;
  write = λ p. none;
}

abbrev repo : FilePath
repo = record { absolute = true; components = codes "r" ∷ [] }

abbrev disk : Disk
disk = record { fs = (FilePath.join repo (of_text (codes ".git")), dir) ∷ []; written = [] }

abbrev note : List Attachment
note = record { filename = codes "n"; bytes = 1 ∷ [] } ∷ []

abbrev result : MaterializedAttachment
result = record { commit_id = codes "7f"; filenames = codes "n" ∷ [] }

abbrev after_commit : Disk
after_commit = (materialize idle_system repo (codes "u") note disk).1

commits : materialize idle_system repo (codes "u") note disk ≡ (ok result, after_commit)
unfolding materialize check_repo make_tmp_root remove_stale commit_and_clean_up commit run_jj
    run_jj_output jj_stdout write_files write_file check_name tmp_root remove_workspace
    FilePath.join of_text split codes text_eq HashMap.get HashMap.insert HashMap.remove
    HashMap.contains_key path_eq exists is_file create_dir_all make_dirs ancestors heads
    remove_dir_all remove_under is_under strip_components trim trim_end_matches drop_while
    is_whitespace join FilePath.display
commits = refl

materialize_names_example :
    (result.filenames ≡ map (λ a. a.filename) note)
    × All IsFileName result.filenames
    × (result.commit_id ≢ [])
materialize_names_example =
    materialize_names idle_system repo (codes "u") note disk after_commit result commits

-- `jj` as one that makes the workspace, and lists it, as `marker`, until it is to forget it.
abbrev workspace : FilePath
workspace = FilePath.join (tmp_root repo) (of_text (codes "u"))

abbrev marker : FilePath
marker = record { absolute = true; components = codes "jj" ∷ codes "u" ∷ [] }

abbrev said : JjOutput
said = record { success = true; stdout = codes "7f\n"; stderr = [] }

unfoldable run_args : List Text → Disk → Disk
run_args (w ∷ act ∷ rest) d =
    if act == codes "add"
    then record d { fs = HashMap.insert workspace dir (HashMap.insert marker dir d.fs) }
    else if act == codes "forget"
    then record d { fs = HashMap.remove marker d.fs }
    else d
run_args (w ∷ []) d = d
run_args [] d = d

abbrev tracking : System
tracking = record idle_system { jj = λ cwd args d. (ok said, run_args args d) }

abbrev known : Disk → Bool
known d = exists marker d.fs

is_made :
    (exists
        (FilePath.join workspace (of_text (codes "n")))
        (commit tracking repo workspace (codes "u") note disk).1.fs
      ≡ true)
    × (known (commit tracking repo workspace (codes "u") note disk).1 ≡ true)
unfolding run_args commit run_jj run_jj_output jj_stdout write_files write_file check_name tmp_root
    FilePath.join of_text split codes text_eq HashMap.get HashMap.insert HashMap.remove
    HashMap.contains_key path_eq exists trim trim_end_matches drop_while is_whitespace join
    FilePath.display
is_made = (refl, refl)

abbrev committed : Disk
committed = (commit tracking repo workspace (codes "u") note disk).1

forgets : known (tracking.jj repo (forget_args idle_system (codes "u")) committed).1 ≡ false
unfolding run_args commit run_jj run_jj_output jj_stdout write_files write_file check_name tmp_root
    FilePath.join of_text split codes text_eq HashMap.get HashMap.insert HashMap.remove
    HashMap.contains_key path_eq exists trim trim_end_matches drop_while is_whitespace join
    FilePath.display is_file
forgets = refl

leaves_no_file :
    is_file (tracking.jj repo (forget_args idle_system (codes "u")) committed).1.fs workspace
    ≡ false
unfolding run_args commit run_jj run_jj_output jj_stdout write_files write_file check_name tmp_root
    FilePath.join of_text split codes text_eq HashMap.get HashMap.insert HashMap.remove
    HashMap.contains_key path_eq exists trim trim_end_matches drop_while is_whitespace join
    FilePath.display is_file
leaves_no_file = refl

stays_unknown :
    (t : Disk) → known t ≡ false → known (remove_workspace tracking workspace t).1 ≡ false
unfolding remove_workspace
stays_unknown t h = elim (Option-cases (remove_dir_all workspace t.fs)) [
  | inl e ↦ ground (arith, e, h)
  | inr (fs, e) ↦ ground (arith, e, h, exists-remove_dir_all workspace marker t.fs fs e)
]

clean_up_lem_example :
    let (done, t) = commit_and_clean_up tracking repo workspace (codes "u") note disk in
    ((q : FilePath) → is_under workspace q ≡ true → exists q t.fs ≡ false)
    × (known t ≡ false)
    × (done ≡ (commit tracking repo workspace (codes "u") note disk).0)
clean_up_lem_example =
    clean_up_lem tracking repo workspace (codes "u") note known disk forgets leaves_no_file
      stays_unknown refl

abbrev fresh : World
fresh = record {
  set =
      new (codes "a") (record { root = record { absolute = true; components = codes "run" ∷ [] } });
  fs = [];
}

abbrev inputs : List (Input Unit)
inputs =
    notified (record { create_dir = false; bind = false }) (ok (some (peer_joined (codes "c"))))
    ∷ notified (record { create_dir = false; bind = false }) (ok (some (peer_left (codes "b"))))
    ∷ []

abbrev serve_nothing : Text → Unit {0} → Action ℕ Text Unit
serve_nothing peer conn d = (ok tt, d)

starts : (q : Text) → HashMap.get q fresh.set.entries ≡ none
unfolding new HashMap.get
starts q = refl

b_left : told (codes "b") (contains (codes "b" ∷ []) (codes "b")) inputs ≡ false
unfolding told codes text_eq
b_left = refl

serve_one_session-IsTold_example :
    HashMap.get
      (codes "b")
      (serve_one_session serve_nothing
        (record { create_dir = false; bind = false })
        (codes "b" ∷ [])
        inputs
        fresh
        0).1.0.set.entries
    ≡ none
serve_one_session-IsTold_example =
    serve_one_session-IsTold serve_nothing (record { create_dir = false; bind = false })
      (codes "b" ∷ []) inputs fresh 0 starts (codes "b") b_left
