-- ===== src/Server/Session/Exact.antt =====
-- crossbridge-server/src/run.rs: for which peers there are listeners, where each could be put up.
use crossbridge.Prelude.{
  Bool, true, false, not, or-false, ◌&&◌, ◌||◌, none, some, List, [], ◌∷◌, ◌≡◌, ◌∙◌, refl, inl, inr,
  arith, contains, ◌==◌, if◌then◌else◌, ok, err, Option-cases,
}
use crossbridge.Prelude.Text.{Text, text_has_eq, text_eq_iff}
use crossbridge.Prelude.Action.{Action}
use crossbridge.Prelude.HashMap
use crossbridge.Prelude.FileSystem.{create_dir_all}
use crossbridge.Protocol.{peer_joined, peer_left}
use crossbridge.Server.Paths.{SocketLayout, listener_socket, peer_dir}
use crossbridge.Server.Listeners.{World, Refusals, add, remove, install}
use crossbridge.Server.Listeners.Files.{get-remove_entry, add_lem}
use crossbridge.Server.Session.{
  Input, shutdown, notified, accepted, add_each, notice, session_loop, serve_one_session,
}
use crossbridge.Server.Session.Told.{told}

-- Whether each listener that was to be put up was.
unfoldable pub adds_each : Refusals → List Text → World → Bool
adds_each f [] w = true
adds_each f (p ∷ ps) w = (add f p w).0 && adds_each f ps (add f p w).1

unfoldable pub adds_in_loop : {C : Type 0} → List (Input C) → World → Bool
adds_in_loop [] w = true
adds_in_loop (notified f (ok (some (peer_joined slug))) ∷ rest) w =
    (add f slug w).0 && adds_in_loop rest (add f slug w).1
adds_in_loop (notified f (ok (some (peer_left slug))) ∷ rest) w =
    adds_in_loop rest (remove slug w).1
adds_in_loop (accepted peer conn ∷ rest) w = adds_in_loop rest w
adds_in_loop (shutdown ∷ rest) w = true
adds_in_loop (notified f (ok none) ∷ rest) w = true
adds_in_loop (notified f (err e) ∷ rest) w = true

-- In the set of a server `own` there is the listener for `q`, or there is none.
pub record IsExact (layout : SocketLayout) (own q : Text) (b : Bool) (w : World) : Type 0 where
  pub layout_lem : w.set.layout ≡ layout
  pub own_lem : w.set.own_slug ≡ own
  pub entry :
      HashMap.get q w.set.entries ≡ (if b then some (listener_socket layout q own) else none)

remove_place :
    (slug : Text) (w : World)
    → ((remove slug w).1.set.layout ≡ w.set.layout)
      × ((remove slug w).1.set.own_slug ≡ w.set.own_slug)
unfolding remove
remove_place slug w = elim (Option-cases (HashMap.get slug w.set.entries)) [
  | inl e ↦ rw (e, remove) (refl, refl)
  | inr (p, e) ↦ rw (e, remove) (refl, refl)
]

install_place :
    (f : Refusals) (slug : Text) (w : World)
    → ((install f slug w).1.set.layout ≡ w.set.layout)
      × ((install f slug w).1.set.own_slug ≡ w.set.own_slug)
unfolding install
install_place f slug w = ground (arith, remove_place slug w)

add_place :
    (f : Refusals) (slug : Text) (w : World)
    → ((add f slug w).1.set.layout ≡ w.set.layout)
      × ((add f slug w).1.set.own_slug ≡ w.set.own_slug)
unfolding add
add_place f slug w = elim (Option-cases (create_dir_all (peer_dir w.set.layout slug) w.fs)) [
  | inl e ↦ ground (arith, e)
  | inr (fs, e) ↦ ground (arith, e, install_place f slug (record w { fs = fs }))
]

told_first : (a b c : Bool) → ((a || b) || c) ≡ (b || (a || c))
told_first a b c = ground arith

module _ (layout : SocketLayout) (own q : Text) where
  add-IsExact :
      (f : Refusals) (slug : Text) (b : Bool) (w : World)
      → (add f slug w).0 ≡ true
      → IsExact layout own q b w
      → IsExact layout own q (slug == q || b) (add f slug w).1
  add-IsExact f slug b w done x = record {
    layout_lem = (add_place f slug w).0 ∙ x.layout_lem;
    own_lem = (add_place f slug w).1 ∙ x.own_lem;
    entry = (add_lem f slug w (add f slug w).1 (ground (arith, done))).1 q ∙ entry_lem;
  }
    where
      entry_lem :
          (if slug == q
            then some (listener_socket w.set.layout slug w.set.own_slug)
            else HashMap.get q w.set.entries)
          ≡ (if slug == q || b then some (listener_socket layout q own) else none)
      entry_lem = rw (x.layout_lem, x.own_lem) (ground (arith, x.entry, text_eq_iff slug q))

  remove-IsExact :
      (slug : Text) (b : Bool) (w : World)
      → IsExact layout own q b w
      → IsExact layout own q (not (slug == q) && b) (remove slug w).1
  remove-IsExact slug b w x = record {
    layout_lem = (remove_place slug w).0 ∙ x.layout_lem;
    own_lem = (remove_place slug w).1 ∙ x.own_lem;
    entry = get-remove_entry slug q w ∙ ground (arith, x.entry);
  }

  add_each-IsExact :
      (f : Refusals) (peers : List Text) (b : Bool) (w : World)
      → adds_each f peers w ≡ true
      → IsExact layout own q b w
      → IsExact layout own q (contains peers q || b) (add_each f peers w)
  unfolding add_each adds_each
  add_each-IsExact f [] b w done x = x
  add_each-IsExact f (p ∷ ps) b w done x = rw (told_first (p == q) (contains ps q) b) (
      add_each-IsExact f ps (p == q || b) (add f p w).1 (ground (arith, done))
        (add-IsExact f p b w (ground (arith, done)) x))

  session_loop-IsExact :
      {C D : Type 0} (serve : Text → C → Action D Text Unit) (inputs : List (Input C)) (b : Bool)
      (w : World) (d : D)
      → (session_loop serve inputs w d).0 ≡ none
      → adds_in_loop inputs w ≡ true
      → IsExact layout own q b w
      → IsExact layout own q (told q b inputs) (session_loop serve inputs w d).1.0
  unfolding session_loop told notice adds_in_loop
  session_loop-IsExact serve [] b w d runs done x = x
  session_loop-IsExact serve (shutdown ∷ rest) b w d runs done x = absurd (cc)
  session_loop-IsExact serve (notified f (ok (some (peer_joined slug))) ∷ rest) b w d runs done x =
      session_loop-IsExact serve rest (slug == q || b) (add f slug w).1 d runs
        (ground (arith, done)) (add-IsExact f slug b w (ground (arith, done)) x)
  session_loop-IsExact serve (notified f (ok (some (peer_left slug))) ∷ rest) b w d runs done x =
      session_loop-IsExact serve rest (not (slug == q) && b) (remove slug w).1 d runs done
        (remove-IsExact slug b w x)
  session_loop-IsExact serve (notified f (ok none) ∷ rest) b w d runs done x = absurd (cc)
  session_loop-IsExact serve (notified f (err e) ∷ rest) b w d runs done x = absurd (cc)
  session_loop-IsExact serve (accepted peer conn ∷ rest) b w d runs done x =
      session_loop-IsExact serve rest b w (serve peer conn d).1 runs done x

-- While a session runs that started with no listeners, and every listener that it was to put up
-- could be put up, there is one for exactly the peers that the Ack or a PeerJoined told of and no
-- PeerLeft since, at the path for that peer.
pub serve_one_session-IsExact :
    {C D : Type 0} (serve : Text → C → Action D Text Unit) (f : Refusals) (peers : List Text)
    (inputs : List (Input C)) (w : World) (d : D)
    → ((q : Text) → HashMap.get q w.set.entries ≡ none)
    → (serve_one_session serve f peers inputs w d).0 ≡ none
    → (adds_each f peers w && adds_in_loop inputs (add_each f peers w)) ≡ true
    → (q : Text)
    → HashMap.get q (serve_one_session serve f peers inputs w d).1.0.set.entries ≡ (
        if told q (contains peers q) inputs
        then some (listener_socket w.set.layout q w.set.own_slug)
        else none)
unfolding serve_one_session
serve_one_session-IsExact serve f peers inputs w d start runs done q =
    let l = w.set.layout in
    let own = w.set.own_slug in
    let before : IsExact l own q false w = record {
      layout_lem = refl;
      own_lem = refl;
      entry = start q;
    } in
    let after : IsExact l own q (contains peers q) (add_each f peers w) =
      rw or-false at (add_each-IsExact l own q f peers false w (ground (arith, done)) before) in
    (session_loop-IsExact l own q serve inputs (contains peers q) (add_each f peers w) d runs
      (ground (arith, done)) after).entry
