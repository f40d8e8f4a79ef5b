-- ===== src/Server/Run/Ends.antt =====
-- crossbridge-server/src/run.rs, run: how the server ends, and what it leaves.
use crossbridge.Prelude.{
  none, some, List, [], ◌∷◌, ◌≡◌, ◌⊎◌, refl, inl, inr, subst, arith, Result, ok, err, Bool-cases,
  Result-cases,
}
use crossbridge.Prelude.Text.{Text, text_has_eq}
use crossbridge.Prelude.Action.{Action}
use crossbridge.Prelude.HashMap
use crossbridge.Prelude.FilePath.{FilePath}
use crossbridge.Prelude.FileSystem.{FileSystem, exists}
use crossbridge.Server.Listeners.{World, Refusals, new, clear}
use crossbridge.Server.Listeners.Files.{clear_lem}
use crossbridge.Server.Session.{Input, run_sessions, serve_one_session}
use crossbridge.Server.Run.{ServerConfig, db_path, run}

abbrev HasNoListeners : World → Type 0
HasNoListeners w = (peer : Text) → HashMap.get peer w.set.entries ≡ none

-- Success, or the error of one of the registrations.
abbrev pub IsRegistrationError :
    {A : Type 0} → List (Result Text (List Text) × A) → Result Text Unit → Type 0
IsRegistrationError [] r = r ≡ ok tt
IsRegistrationError ((outcome, session) ∷ rest) r =
    ((e : Text) × (outcome ≡ err e) × (r ≡ err e)) ⊎ IsRegistrationError rest r

module _ {C D : Type 0} (serve : Text → C → Action D Text Unit) where
  run_sessions-ends :
      (sessions : List (Result Text (List Text) × (Refusals × List (Input C)))) (w : World) (d : D)
      → HasNoListeners w
      → HasNoListeners (run_sessions serve sessions w d).1.0
        × IsRegistrationError sessions (run_sessions serve sessions w d).0
  unfolding run_sessions
  run_sessions-ends [] w d h = ((clear_lem w).0, refl)
  run_sessions-ends ((err e, session) ∷ rest) w d h = (h, inl (e, refl, refl))
  run_sessions-ends ((ok peers, (f, inputs)) ∷ rest) w d h =
      let after : World = (serve_one_session serve f peers inputs w d).1.0 in
      let (clean, ended) =
        run_sessions-ends rest (clear after) (serve_one_session serve f peers inputs w d).1.1
          (clear_lem after).0 in
      (clean, inr ended)

-- However a server ends that opened its database, after any sessions, it has no listener left; and
-- it ends by a shutdown or with the error of a registration, never with that of a session.
pub run_ends :
    {C D : Type 0} (serve : FilePath → Text → C → Action D Text Unit)
    (open_db : FilePath → Result Text D)
    (sessions : List (Result Text (List Text) × (Refusals × List (Input C)))) (cfg : ServerConfig)
    (fs : FileSystem) (r : Result Text Unit) (w : World) (d : D)
    → run serve open_db sessions cfg fs ≡ (r, some (w, d))
    → ((peer : Text) → HashMap.get peer w.set.entries ≡ none) × IsRegistrationError sessions r
unfolding run
run_ends serve open_db sessions cfg fs r w d h = elim (Bool-cases (exists (db_path cfg) fs)) [
  | inr e ↦ absurd (ground (arith, e, h))
  | inl e ↦ elim (Result-cases (open_db (db_path cfg))) [
    | inr (x, bad) ↦ absurd (ground (arith, e, bad, h))
    | inl (d0, opened) ↦
        let w0 : World = record { set = new cfg.slug cfg.layout; fs = fs } in
        let (clean, ended) =
          run_sessions-ends (serve cfg.repo_path) sessions w0 d0
            (λ peer. unfold new HashMap.get in refl) in
        let w_lem : (run_sessions (serve cfg.repo_path) sessions w0 d0).1.0 ≡ w =
          ground (arith, e, opened, h) in
        let r_lem : (run_sessions (serve cfg.repo_path) sessions w0 d0).0 ≡ r =
          ground (arith, e, opened, h) in
        (
          λ peer. subst (λ x. HashMap.get peer x.set.entries ≡ none) w_lem (clean peer),
          subst (IsRegistrationError sessions) r_lem ended,
        )
  ]
]
