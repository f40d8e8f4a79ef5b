-- ===== src/Server/Listeners/Files.antt =====
-- crossbridge-server/src/listeners.rs: the entries of the set and the files of the sockets.
use crossbridge.Prelude.{
  Bool, true, false, not, ◌&&◌, none, some, List, [], ◌∷◌, ◌≡◌, ◌⊎◌, inl, inr, arith, ap, ◌∙◌, In,
  if◌then◌else◌, ◌==◌, Bool-cases, Option-cases,
}
use crossbridge.Prelude.Text.{Text, text_has_eq, text_eq_iff}
use crossbridge.Prelude.HashMap
use crossbridge.Prelude.HashMap.{HashMap}
use crossbridge.Prelude.HashMap.Laws.{get-remove, get-insert, In-keys_of_get}
use crossbridge.Prelude.FilePath.{FilePath, path_has_eq, path_eq_iff}
use crossbridge.Prelude.FileSystem.{FileSystem, file, exists, is_file, create_dir_all}
use crossbridge.Server.Paths.{listener_socket, peer_dir}
use crossbridge.Server.Listeners.{
  World, Refusals, remove_file, remove, bind, install, add, remove_each, clear,
}

is_file-remove_file :
    (p q : FilePath) (fs : FileSystem)
    → is_file (remove_file p fs) q ≡ (is_file fs q && not (p == q))
unfolding remove_file is_file
is_file-remove_file p q fs = elim (Bool-cases (p == q)) [
  | inl e ↦ rw ((path_eq_iff p q).0 e) (ground (arith, get-remove q q fs, path_eq_iff q q))
  | inr e ↦ ground (arith, get-remove p q fs)
]

pub get-remove_entry :
    (s q : Text) (w : World)
    → HashMap.get q (remove s w).1.set.entries
      ≡ (if s == q then none else HashMap.get q w.set.entries)
unfolding remove
get-remove_entry s q w = elim (Option-cases (HashMap.get s w.set.entries)) [
  | inl e ↦ ground (arith, text_eq_iff s q)
  | inr (p, e) ↦ ground (arith, get-remove s q w.set.entries)
]

remove_file_gone :
    (s : Text) (p : FilePath) (w : World)
    → HashMap.get s w.set.entries ≡ some p
    → is_file (remove s w).1.fs p ≡ false
unfolding remove
remove_file_gone s p w h = ground (arith, is_file-remove_file p p w.fs, path_eq_iff p p)

remove_keeps_gone :
    (s : Text) (p : FilePath) (w : World)
    → is_file w.fs p ≡ false
    → is_file (remove s w).1.fs p ≡ false
unfolding remove
remove_keeps_gone s p w h = elim (Option-cases (HashMap.get s w.set.entries)) [
  | inl e ↦ ground arith
  | inr (q, e) ↦ ground (arith, is_file-remove_file q p w.fs)
]

remove_each_keeps_gone :
    (ss : List Text) (p : FilePath) (w : World)
    → is_file w.fs p ≡ false
    → is_file (remove_each ss w).fs p ≡ false
unfolding remove_each
remove_each_keeps_gone [] p w h = h
remove_each_keeps_gone (s ∷ ss) p w h =
    remove_each_keeps_gone ss p (remove s w).1 (remove_keeps_gone s p w h)

remove_each_files :
    (ss : List Text) (s : Text) (p : FilePath) (w : World)
    → In s ss
    → HashMap.get s w.set.entries ≡ some p
    → is_file (remove_each ss w).fs p ≡ false
unfolding remove_each
remove_each_files [] s p w m h = absurd m
remove_each_files (t ∷ ss) s p w m h = elim (Bool-cases (t == s)) [
  | inl e ↦
      remove_each_keeps_gone ss p (remove t w).1
        (remove_file_gone t p w (ap (λ u. HashMap.get u w.set.entries) ((text_eq_iff t s).0 e) ∙ h))
  | inr e ↦
      remove_each_files ss s p (remove t w).1 (ground (arith, text_eq_iff t s))
        (get-remove_entry t s w ∙ rw e h)
]

remove_each_entries :
    (ss : List Text) (q : Text) (w : World)
    → (HashMap.get q w.set.entries ≡ none) ⊎ In q ss
    → HashMap.get q (remove_each ss w).set.entries ≡ none
unfolding remove_each
remove_each_entries [] q w h = ground arith
remove_each_entries (s ∷ ss) q w h =
    remove_each_entries ss q (remove s w).1
      (ground (arith, get-remove_entry s q w, text_eq_iff s q))

-- Clearing leaves no listener in the set and none of their sockets among the files.
pub clear_lem :
    (w : World)
    → ((peer : Text) → HashMap.get peer (clear w).set.entries ≡ none)
      × ((peer : Text) (p : FilePath)
          → HashMap.get peer w.set.entries ≡ some p
          → is_file (clear w).fs p ≡ false)
unfolding clear
clear_lem w = (
  λ peer.
      remove_each_entries (HashMap.keys w.set.entries) peer w
        (elim (Option-cases (HashMap.get peer w.set.entries)) [
          | inl e ↦ inl e
          | inr (p, e) ↦ inr (In-keys_of_get peer p w.set.entries e)
        ]),
  λ peer p h.
      remove_each_files (HashMap.keys w.set.entries) peer p w
        (In-keys_of_get peer p w.set.entries h) h,
)

bind_ok :
    (refused : Bool) (p : FilePath) (fs fs' : FileSystem)
    → bind refused p fs ≡ some fs'
    → HashMap.get p fs' ≡ some file
unfolding bind
bind_ok refused p fs fs' h = ground (arith, get-insert p p file fs, path_eq_iff p p)

install_lem :
    (f : Refusals) (peer : Text) (w w' : World)
    → install f peer w ≡ (true, w')
    → let path = listener_socket w.set.layout peer w.set.own_slug in
      (HashMap.get path w'.fs ≡ some file)
      × ((q : Text)
          → HashMap.get q w'.set.entries
            ≡ (if peer == q then some path else HashMap.get q w.set.entries))
unfolding install
install_lem f peer w w' h =
    let path = listener_socket w.set.layout peer w.set.own_slug in
    let cleared : FileSystem =
      if exists path (remove peer w).1.fs
      then remove_file path (remove peer w).1.fs
      else (remove peer w).1.fs in
    elim (Option-cases (bind f.bind path cleared)) [
      | inl n ↦ absurd (ground arith)
      | inr (fs, n) ↦ (
        ground (arith, bind_ok f.bind path cleared fs n),
        λ q. ground (
          arith,
          get-insert peer q path (remove peer w).1.set.entries,
          get-remove_entry peer q w,
        ),
      )
    ]

-- A listener that was added has its socket among the files, under the path that clients of the peer
-- look for, and is the one of the set for that peer; the listeners for others are those of before.
pub add_lem :
    (f : Refusals) (peer : Text) (w w' : World)
    → add f peer w ≡ (true, w')
    → let path = listener_socket w.set.layout peer w.set.own_slug in
      (HashMap.get path w'.fs ≡ some file)
      × ((q : Text)
          → HashMap.get q w'.set.entries
            ≡ (if peer == q then some path else HashMap.get q w.set.entries))
unfolding add
add_lem f peer w w' h = elim (Bool-cases f.create_dir) [
  | inl e ↦ absurd (ground arith)
  | inr e ↦ elim (Option-cases (create_dir_all (peer_dir w.set.layout peer) w.fs)) [
    | inl n ↦ absurd (ground arith)
    | inr (fs, n) ↦ install_lem f peer (record w { fs = fs }) w' (ground arith)
  ]
]

install-others :
    (f : Refusals) (peer q : Text) (w : World)
    → (peer == q) ≡ false
    → HashMap.get q (install f peer w).1.set.entries ≡ HashMap.get q w.set.entries
unfolding install
install-others f peer q w other =
    let path = listener_socket w.set.layout peer w.set.own_slug in
    let after : World = (remove peer w).1 in
    let cleared : FileSystem =
      if exists path after.fs then remove_file path after.fs else after.fs in
    elim (Option-cases (bind f.bind path cleared)) [
      | inl n ↦ ground (arith, get-remove_entry peer q w)
      | inr (fs, n) ↦
          ground (arith, get-remove_entry peer q w, get-insert peer q path after.set.entries)
    ]

-- Adding a listener for one peer, whether or not it succeeds, leaves the others in the set.
pub add-others :
    (f : Refusals) (peer q : Text) (w : World)
    → (peer == q) ≡ false
    → HashMap.get q (add f peer w).1.set.entries ≡ HashMap.get q w.set.entries
unfolding add
add-others f peer q w other = elim (Bool-cases f.create_dir) [
  | inl e ↦ ground arith
  | inr e ↦ elim (Option-cases (create_dir_all (peer_dir w.set.layout peer) w.fs)) [
    | inl n ↦ ground arith
    | inr (fs, n) ↦ ground (arith, install-others f peer q (record w { fs = fs }) other)
  ]
]
