-- ===== src/Server/Session/Told.antt =====
-- crossbridge-server/src/run.rs: for which peers there may be listeners.
use crossbridge.Prelude.{
  Bool, false, not, ◌&&◌, ◌||◌, none, some, List, [], ◌∷◌, ◌≡◌, ◌∙◌, arith, contains, ◌==◌, ok, err,
}
use crossbridge.Prelude.Text.{Text, text_has_eq}
use crossbridge.Prelude.Action.{Action}
use crossbridge.Prelude.HashMap
use crossbridge.Protocol.{peer_joined, peer_left}
use crossbridge.Server.Listeners.{World, Refusals, add, remove}
use crossbridge.Server.Listeners.Files.{get-remove_entry, clear_lem, add-others}
use crossbridge.Server.Session.{
  Input, shutdown, notified, accepted, add_each, notice, session_loop, serve_one_session,
}

-- Whether the supervisor has told of a peer and not of its leaving, after the inputs, if `b` says so
-- of before.
unfoldable pub told : {C : Type 0} → Text → Bool → List (Input C) → Bool
told q b [] = b
told q b (shutdown ∷ rest) = b
told q b (notified f (ok (some (peer_joined slug))) ∷ rest) = told q (slug == q || b) rest
told q b (notified f (ok (some (peer_left slug))) ∷ rest) = told q (not (slug == q) && b) rest
told q b (notified f (ok none) ∷ rest) = b
told q b (notified f (err e) ∷ rest) = b
told q b (accepted peer conn ∷ rest) = told q b rest

-- No listener but for a peer that was told of.
unfoldable pub IsTold : Text → Bool → World → Type 0
IsTold q b w = b ≡ false → HashMap.get q w.set.entries ≡ none

add_each-IsTold :
    (f : Refusals) (peers : List Text) (q : Text) (b : Bool) (w : World)
    → IsTold q b w
    → IsTold q (contains peers q || b) (add_each f peers w)
unfolding add_each IsTold
add_each-IsTold f [] q b w h = h
add_each-IsTold f (p ∷ ps) q b w h = λ e.
    add_each-IsTold f ps q (p == q || b) (add f p w).1
      (λ e'. add-others f p q w (ground arith) ∙ h (ground arith)) (ground arith)

session_loop-IsTold :
    {C D : Type 0} (serve : Text → C → Action D Text Unit) (inputs : List (Input C)) (q : Text)
    (b : Bool) (w : World) (d : D)
    → IsTold q b w
    → IsTold q (told q b inputs) (session_loop serve inputs w d).1.0
unfolding session_loop told IsTold notice
session_loop-IsTold serve [] q b w d h = h
session_loop-IsTold serve (shutdown ∷ rest) q b w d h = λ e. (clear_lem w).0 q
session_loop-IsTold serve (notified f (ok (some (peer_joined slug))) ∷ rest) q b w d h =
    session_loop-IsTold serve rest q (slug == q || b) (add f slug w).1 d
      (λ e. add-others f slug q w (ground arith) ∙ h (ground arith))
session_loop-IsTold serve (notified f (ok (some (peer_left slug))) ∷ rest) q b w d h =
    session_loop-IsTold serve rest q (not (slug == q) && b) (remove slug w).1 d
      (λ e. get-remove_entry slug q w ∙ ground (arith, h))
session_loop-IsTold serve (notified f (ok none) ∷ rest) q b w d h = h
session_loop-IsTold serve (notified f (err e) ∷ rest) q b w d h = h
session_loop-IsTold serve (accepted peer conn ∷ rest) q b w d h =
    session_loop-IsTold serve rest q b w (serve peer conn d).1 h

-- In a session that starts with no listeners there is, after any inputs and whatever fails, none for
-- a peer that neither the Ack nor a PeerJoined told of, nor for one of which a PeerLeft came since.
pub serve_one_session-IsTold :
    {C D : Type 0} (serve : Text → C → Action D Text Unit) (f : Refusals) (peers : List Text)
    (inputs : List (Input C)) (w : World) (d : D)
    → ((q : Text) → HashMap.get q w.set.entries ≡ none)
    → (q : Text) → told q (contains peers q) inputs ≡ false
    → HashMap.get q (serve_one_session serve f peers inputs w d).1.0.set.entries ≡ none
unfolding serve_one_session IsTold
serve_one_session-IsTold serve f peers inputs w d start q =
    session_loop-IsTold serve inputs q (contains peers q) (add_each f peers w) d
      (λ e. add_each-IsTold f peers q false w (λ u. start q) (ground (arith, e)))
