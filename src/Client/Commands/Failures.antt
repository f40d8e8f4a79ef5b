-- ===== src/Client/Commands/Failures.antt =====
-- crossbridge-client/src/main.rs: what a command that fails leaves of the local database.
use crossbridge.Prelude.{
  List, [], ◌++◌, ◌≡◌, ◌⊎◌, refl, inl, inr, arith, Result, ok, err, map_err, map_err_ok,
  Result-cases, some, Option-cases,
}
use crossbridge.Prelude.Text.{Text, codes}
use crossbridge.Prelude.Action.{LeavesState, fails_clean}
use crossbridge.Prelude.Decimal.{ℤ}
use crossbridge.Prelude.FilePath.{FilePath}
use crossbridge.Prelude.FileSystem.{FileSystem}
use crossbridge.Protocol.{ClientRequest, answer, ServerResponse, done, failed}
use crossbridge.Protocol.Roots.{Env}
use crossbridge.Crosslink.{Database, Issue, Comment}
use crossbridge.Client.Labels.{source_prefix, ref_prefix, find_prefixed}
use crossbridge.Client.Commands.{
  load_issue, require_peer, ask, accepted, require_label, require_inbound, submission, submit_cmd,
  answer_cmd, answer_from, results_of, peer_socket, number,
}

module _ {D : Type 0} (db : Database D) (fs : FileSystem) (env : Env)
    (exchange : FilePath → Text → ClientRequest → Result Text ServerResponse) where
  -- The target was asked to take this issue, and accepted.
  unfoldable pub SubmitAccepted : Text → Text → ℤ → D → Type 0
  SubmitAccepted own target id d =
      (i : Issue) × (uuid : Text) × (labels : List Text) × (remote : ℤ) × (db.get_issue id d
        ≡ ok (some i))
      × (db.get_issue_uuid_by_id i.id d ≡ ok uuid)
      × (db.get_labels i.id d ≡ ok labels)
      × (exchange (peer_socket env own target) target
            (submission db fs env exchange own i uuid labels)
          ≡ ok (done remote))

  -- The peer that this issue came from was sent its results, and accepted.
  unfoldable pub AnswerAccepted : Text → ℤ → D → Type 0
  AnswerAccepted own id d =
      (i : Issue) × (labels : List Text) × (slug : Text) × (uuid : Text) × (cs : List Comment)
      × (remote : ℤ) × (db.get_issue id d ≡ ok (some i))
      × (db.get_labels i.id d ≡ ok labels)
      × (find_prefixed labels source_prefix ≡ some slug)
      × (find_prefixed labels ref_prefix ≡ some uuid)
      × (db.get_comments i.id d ≡ ok cs)
      × (exchange (peer_socket env own slug) slug (
            answer (record {
              source_uuid = uuid;
              comments = results_of db fs env exchange cs;
              attachments = [];
            }))
          ≡ ok (done remote))

  load_issue_value :
      (id : ℤ) (i : Issue) (d : D)
      → (load_issue db fs env exchange id d).0 ≡ ok i
      → db.get_issue id d ≡ ok (some i)
  unfolding load_issue
  load_issue_value id i d h = elim (Result-cases (db.get_issue id d)) [
    | inr (x, e) ↦ absurd (ground (arith, e, h))
    | inl (o, e) ↦ elim (Option-cases o) [
      | inl n ↦ absurd (ground (arith, e, n, h))
      | inr (j, n) ↦ ground (arith, e, n, h)
    ]
  ]

  require_label_value :
      (id : ℤ) (labels : List Text) (prefix what value : Text) (d : D)
      → (require_label db fs env exchange id labels prefix what d).0 ≡ ok value
      → find_prefixed labels prefix ≡ some value
  unfolding require_label
  require_label_value id labels prefix what value d h =
      elim (Option-cases (find_prefixed labels prefix)) [
        | inl n ↦ absurd (ground (arith, n, h))
        | inr (v, n) ↦ ground (arith, n, h)
      ]

  load_issue-LeavesState : (id : ℤ) → LeavesState (load_issue db fs env exchange id)
  unfolding load_issue
  load_issue-LeavesState id s = elim (Result-cases (db.get_issue id s)) [
    | inl (o, e) ↦ ground (arith, e)
    | inr (x, e) ↦ ground (arith, e)
  ]

  require_peer-LeavesState :
      (own peer : Text) → LeavesState (require_peer db fs env exchange own peer)
  unfolding require_peer
  require_peer-LeavesState own peer s = ground arith

  require_inbound-LeavesState :
      (id : ℤ) (labels : List Text) → LeavesState (require_inbound db fs env exchange id labels)
  unfolding require_inbound
  require_inbound-LeavesState id labels s = ground arith

  require_label-LeavesState :
      (id : ℤ) (labels : List Text) (prefix what : Text)
      → LeavesState (require_label db fs env exchange id labels prefix what)
  unfolding require_label
  require_label-LeavesState id labels prefix what s = refl

  ask-LeavesState :
      (own peer : Text) (q : ClientRequest) → LeavesState (ask db fs env exchange own peer q)
  unfolding ask
  ask-LeavesState own peer q s = elim (Result-cases (exchange (peer_socket env own peer) peer q)) [
    | inl (o, e) ↦ ground (arith, e)
    | inr (x, e) ↦ ground (arith, e)
  ]

  ask_value :
      (own peer : Text) (q : ClientRequest) (remote : ℤ) (s : D)
      → (ask db fs env exchange own peer q s).0 ≡ ok remote
      → exchange (peer_socket env own peer) peer q ≡ ok (done remote)
  unfolding ask accepted
  ask_value own peer q remote s h =
      elim (Result-cases (exchange (peer_socket env own peer) peer q)) [
        | inr (x, e) ↦ absurd (ground (arith, e, h))
        | inl (failed m, e) ↦ absurd (ground (arith, e, h))
        | inl (done n, e) ↦ ground (arith, e, h)
      ]

  clean_submit :
      (own target e : Text) (id : ℤ) (d d' : D)
      → submit_cmd db fs env exchange own id target d ≡ (err e, d')
      → (d' ≡ d) ⊎ SubmitAccepted own target id d
  unfolding submit_cmd SubmitAccepted
  clean_submit own target e id d d' h =
      fails_clean (load_issue db fs env exchange id) _ d d' e h (load_issue-LeavesState id)
        (λ i r0 h0.
          fails_clean
            (λ s. (
              map_err
                  (λ e. codes "issue " ++ number id ++ codes " has no UUID in the local DB: " ++ e)
                  (db.get_issue_uuid_by_id i.id s),
              s,
            ))
            _ d d' e h0 (λ s. refl)
            (λ uuid r1 h1.
              fails_clean (λ s. (db.get_labels i.id s, s)) _ d d' e h1 (λ s. refl)
                (λ labels r2 h2.
                  fails_clean (require_peer db fs env exchange own target) _ d d' e h2
                    (require_peer-LeavesState own target)
                    (λ u r3 h3.
                      let q = submission db fs env exchange own i uuid labels in
                      fails_clean (ask db fs env exchange own target q) _ d d' e h3
                        (ask-LeavesState own target q)
                        (λ remote r4 h4. inr (
                          i,
                          uuid,
                          labels,
                          remote,
                          load_issue_value id i d r0,
                          map_err_ok _ (db.get_issue_uuid_by_id i.id d) r1,
                          r2,
                          ask_value own target q remote d r4,
                        ))))))

  clean_exchange :
      (own slug uuid e : Text) (i : Issue) (id : ℤ) (labels : List Text) (d d' : D)
      → db.get_issue id d ≡ ok (some i)
      → db.get_labels i.id d ≡ ok labels
      → find_prefixed labels source_prefix ≡ some slug
      → find_prefixed labels ref_prefix ≡ some uuid
      → answer_from db fs env exchange own id i slug uuid d ≡ (err e, d')
      → (d' ≡ d) ⊎ AnswerAccepted own id d
  unfolding answer_from AnswerAccepted
  clean_exchange own slug uuid e i id labels d d' at labelled from to h =
      fails_clean (λ s. (db.get_comments i.id s, s)) _ d d' e h (λ s. refl)
        (λ cs r5 h5.
          fails_clean (require_peer db fs env exchange own slug) _ d d' e h5
            (require_peer-LeavesState own slug)
            (λ v r6 h6.
              let q = answer (record {
                source_uuid = uuid;
                comments = results_of db fs env exchange cs;
                attachments = [];
              }) in
              fails_clean (ask db fs env exchange own slug q) _ d d' e h6
                (ask-LeavesState own slug q)
                (λ remote r7 h7. inr (
                  i,
                  labels,
                  slug,
                  uuid,
                  cs,
                  remote,
                  at,
                  labelled,
                  from,
                  to,
                  r5,
                  ask_value own slug q remote d r7,
                ))))

  clean_answer :
      (own e : Text) (id : ℤ) (d d' : D)
      → answer_cmd db fs env exchange own id d ≡ (err e, d')
      → (d' ≡ d) ⊎ AnswerAccepted own id d
  unfolding answer_cmd
  clean_answer own e id d d' h =
      fails_clean (load_issue db fs env exchange id) _ d d' e h (load_issue-LeavesState id)
        (λ i r0 h0.
          fails_clean (λ s. (db.get_labels i.id s, s)) _ d d' e h0 (λ s. refl)
            (λ labels r1 h1.
              fails_clean (require_inbound db fs env exchange id labels) _ d d' e h1
                (require_inbound-LeavesState id labels)
                (λ u r2 h2.
                  fails_clean
                    (require_label db fs env exchange id labels source_prefix (codes "<slug>")) _ d
                    d' e h2 (require_label-LeavesState id labels source_prefix (codes "<slug>"))
                    (λ slug r3 h3.
                      fails_clean
                        (require_label db fs env exchange id labels ref_prefix (codes "<uuid>")) _ d
                        d' e h3 (require_label-LeavesState id labels ref_prefix (codes "<uuid>"))
                        (λ uuid r4 h4.
                          clean_exchange own slug uuid e i id labels d d'
                            (load_issue_value id i d r0) r1
                            (require_label_value id labels source_prefix (codes "<slug>") slug d r3)
                            (require_label_value id labels ref_prefix (codes "<uuid>") uuid d r4)
                            h4)))))

  -- A submit or an answer that fails leaves the local database as it was, whatever failed, unless
  -- the peer had accepted this very request by then: of a submit the target, with the issue of that
  -- number, its UUID and its labels; of an answer the peer of the issue's first xb-source label, with
  -- the results of the issue and its first xb-ref label.
  pub failures_are_clean :
      (own target e : Text) (id : ℤ) (d d' : D)
      → ((submit_cmd db fs env exchange own id target d ≡ (err e, d'))
          ⊎ (answer_cmd db fs env exchange own id d ≡ (err e, d')))
      → (d' ≡ d)
        ⊎ ((submit_cmd db fs env exchange own id target d ≡ (err e, d'))
            × SubmitAccepted own target id d)
        ⊎ ((answer_cmd db fs env exchange own id d ≡ (err e, d')) × AnswerAccepted own id d)
  failures_are_clean own target e id d d' (inl h) = elim (clean_submit own target e id d d' h) [
    | inl same ↦ inl same
    | inr accepted ↦ inr (inl (h, accepted))
  ]
  failures_are_clean own target e id d d' (inr h) = elim (clean_answer own e id d d' h) [
    | inl same ↦ inl same
    | inr accepted ↦ inr (inr (h, accepted))
  ]
