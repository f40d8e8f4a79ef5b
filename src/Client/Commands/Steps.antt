-- ===== src/Client/Commands/Steps.antt =====
-- crossbridge-client/src/main.rs: the steps of a command that read, and what their success means.
use crossbridge.Prelude.{
  true, some, ◌≡◌, inl, inr, arith, Result, ok, Option-cases, Bool-cases, Result-cases,
}
use crossbridge.Prelude.Text.{Text}
use crossbridge.Prelude.Action.{bind_ok}
use crossbridge.Prelude.Decimal.{ℤ}
use crossbridge.Prelude.FilePath.{FilePath}
use crossbridge.Prelude.FileSystem.{FileSystem, exists}
use crossbridge.Protocol.{ClientRequest, ServerResponse, done, failed}
use crossbridge.Protocol.Roots.{Env}
use crossbridge.Crosslink.{Database, Contents, IsLawful, Issue}
use crossbridge.Client.Commands.{load_issue, require_peer, ask, accepted, peer_socket}

module _ {D : Type 0} (db : Database D) (c : Contents D) (law : IsLawful db c) (fs : FileSystem)
    (env : Env) (exchange : FilePath → Text → ClientRequest → Result Text ServerResponse) where
  pub load_issue_ok :
      (id : ℤ) (d d' : D) (i : Issue)
      → load_issue db fs env exchange id d ≡ (ok i, d')
      → (d ≡ d') × (c.issue_of d id ≡ some i)
  unfolding load_issue
  load_issue_ok id d d' i h =
      let (o, d1, read, r) = bind_ok (λ s. (db.get_issue id s, s)) _ d d' i h in
      let same : d ≡ d1 = ground arith in
      let at : c.issue_of d id ≡ o = law.get_issue_lem id d o (ground arith) in
      ground (arith, Option-cases o)

  pub require_peer_ok :
      (own target : Text) (d d' : D)
      → require_peer db fs env exchange own target d ≡ (ok tt, d')
      → (exists (peer_socket env own target) fs ≡ true) × (d ≡ d')
  unfolding require_peer
  require_peer_ok own target d d' h = elim (Bool-cases (exists (peer_socket env own target) fs)) [
    | inl e ↦ (e, ground arith)
    | inr e ↦ absurd (ground arith)
  ]

  pub ask_ok :
      (own target : Text) (q : ClientRequest) (d d' : D) (remote : ℤ)
      → ask db fs env exchange own target q d ≡ (ok remote, d')
      → (exchange (peer_socket env own target) target q ≡ ok (done remote)) × (d ≡ d')
  unfolding ask accepted
  ask_ok own target q d d' remote h =
      elim (Result-cases (exchange (peer_socket env own target) target q)) [
        | inr (e, he) ↦ ground arith
        | inl (failed m, he) ↦ ground arith
        | inl (done n, he) ↦ ground arith
      ]
