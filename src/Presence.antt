-- ===== src/Presence.antt =====
-- crossbridge-supervisor/src/lib.rs and crossbridge-server/src/run.rs together: the listeners of a
-- server and the peers that the supervisor has for it.
use crossbridge.Prelude.{
  ℕ, ◌<◌, not, ◌&&◌, ◌||◌, true, none, some, List, [], ◌∷◌, ◌≡◌, refl, inl, inr, In, contains,
  if◌then◌else◌, ◌==◌, Bool, ok, err, nat_has_eq,
}
use crossbridge.Prelude.Text.{Text, text_has_eq}
use crossbridge.Prelude.Action.{Action}
use crossbridge.Prelude.HashMap
use crossbridge.Prelude.FilePath.{FilePath}
use crossbridge.Prelude.FileSystem.{FileSystem}
use crossbridge.Protocol.{Notification, peer_joined, peer_left}
use crossbridge.Supervisor.{ConnId, ConnRecord, State, departed, u64_mod, is_registered}
use crossbridge.Supervisor.Views.{hear}
use crossbridge.Supervisor.Views.Session.{session_of, hear_each, view-session}
use crossbridge.Supervisor.Schedule.{Reach}
use crossbridge.Supervisor.Schedule.Reachable.{Reach-IsInformed}
use crossbridge.Server.Paths.{listener_socket}
use crossbridge.Server.Listeners.{World, Refusals}
use crossbridge.Server.Session.{Input, shutdown, notified, accepted, add_each, serve_one_session}
use crossbridge.Server.Session.Told.{told}
use crossbridge.Server.Session.Exact.{adds_each, adds_in_loop, serve_one_session-IsExact}

-- The notifications among the inputs of a session.
unfoldable pub notices : {C : Type 0} → List (Input C) → List Notification
notices [] = []
notices (notified f (ok (some n)) ∷ rest) = n ∷ notices rest
notices (notified f (ok none) ∷ rest) = []
notices (notified f (err e) ∷ rest) = []
notices (shutdown ∷ rest) = []
notices (accepted peer conn ∷ rest) = notices rest

told-hear_each :
    {C : Type 0} (q : Text) (b : Bool) (inputs : List (Input C))
    → told q b inputs ≡ hear_each (notices inputs) q b
unfolding told hear_each notices hear
told-hear_each q b [] = refl
told-hear_each q b (notified f (ok (some (peer_joined slug))) ∷ rest) =
    told-hear_each q (slug == q || b) rest
told-hear_each q b (notified f (ok (some (peer_left slug))) ∷ rest) =
    told-hear_each q (not (slug == q) && b) rest
told-hear_each q b (notified f (ok none) ∷ rest) = refl
told-hear_each q b (notified f (err e) ∷ rest) = refl
told-hear_each q b (shutdown ∷ rest) = refl
told-hear_each q b (accepted peer conn ∷ rest) = told-hear_each q b rest

-- A server whose session runs, that has got all the messages since its Ack, whatever connections it
-- served between them, and that could put up its listeners, has a listener for exactly the other
-- slugs that the supervisor has in its group, each at the path for that peer. (Within 2^64 - 1 steps
-- of the supervisor, and unless the departure of the server is queued.)
pub listeners_are_peers :
    {base : FilePath} {fs : FileSystem} {n : ℕ} {s : State}
    → n < u64_mod
    → Reach base fs n s
    → (id : ConnId) (rec : ConnRecord) → HashMap.get id s.conns ≡ some rec
    → (In (departed id) s.events → ⊥)
    → {C D : Type 0} (serve : Text → C → Action D Text Unit) (f : Refusals) (peers : List Text)
      (inputs : List (Input C)) (w : World) (d : D)
    → session_of rec.write_half s.sent ≡ some (peers, notices inputs)
    → ((q : Text) → HashMap.get q w.set.entries ≡ none)
    → (serve_one_session serve f peers inputs w d).0 ≡ none
    → (adds_each f peers w && adds_in_loop inputs (add_each f peers w)) ≡ true
    → (q : Text)
    → HashMap.get q (serve_one_session serve f peers inputs w d).1.0.set.entries ≡ (
        if is_registered s rec.group q && not (q == rec.slug)
        then some (listener_socket w.set.layout q w.set.own_slug)
        else none)
listeners_are_peers small r id rec held stays serve f peers inputs w d messages start runs done q =
    elim (Reach-IsInformed small r id rec held) [
      | inr leaving ↦ absurd (stays leaving)
      | inl knows ↦
          rw
            (
              ← knows q,
              view-session rec.write_half _ q peers (notices inputs) messages,
              ← told-hear_each q (contains peers q) inputs,
            )
            (serve_one_session-IsExact serve f peers inputs w d start runs done q)
    ]
