-- ===== src/Server/Handler/Answer.antt =====
-- crossbridge-server/src/handler.rs, handle_answer: what an answer does to the issue that it is for.
use crossbridge.Prelude.{
  Option, none, some, List, ◌++◌, ◌≡◌, ◌⊎◌, ◌↔◌, inl, inr, refl, sym, ap, subst, ◌∙◌, arith, In, ok,
  err, map_err, ok_or, Result-cases, Option-cases, map,
}
use crossbridge.Prelude.Text.{Text, codes, text_has_eq}
use crossbridge.Prelude.Action.{bind_ok, map_error, lift}
use crossbridge.Prelude.Decimal.{ℤ, display_int, int_has_eq}
use crossbridge.Protocol.{SubmitAnswer}
use crossbridge.Crosslink.{Database, Contents, IsLawful, Issue, Comment, closed_status}
use crossbridge.Server.Handler.{
  ref_label, find_issue_with_label, apply_answer, close_if_open, answer_issue, handle_answer,
  to_copy,
}
use crossbridge.Server.Handler.Find.{IsKnown, find_issue_lem}
use crossbridge.Server.Handler.Phases.{
  pending, resolved, result, IsResolved, apply_answer-effect, close_if_open-effect,
}

module _ {D : Type 0} (db : Database D) (c : Contents D) (law : IsLawful db c) where
  unfoldable pub IsAnswered : Text → SubmitAnswer → ℤ → D → D → Type 0
  IsAnswered peer a id d d' =
      ((i : Issue) × (c.issue_of d id ≡ some i)
        × (c.issue_of d' id ≡ some (record i { status = closed_status })))
      × (c.comments_of d' id
          ≡ c.comments_of d id ++ map result (to_copy peer (c.comments_of d id) a.comments))
      × IsResolved db c law (c.labels_of d id) (c.labels_of d' id)

  phases-IsAnswered :
      (peer : Text) (a : SubmitAnswer) (id : ℤ) (existing : List Comment) (found : Issue)
      (d d2 d' : D)
      → c.comments_of d id ≡ existing
      → db.transaction (apply_answer db id (to_copy peer existing a.comments)) d ≡ (ok tt, d2)
      → c.issue_of d2 id ≡ some found
      → close_if_open db id found d2 ≡ (ok tt, d')
      → IsAnswered peer a id d d'
  unfolding IsAnswered IsResolved
  phases-IsAnswered peer a id existing found d d2 d' had applied at closed =
      let (comments, issue, labels) =
        apply_answer-effect db c law id (to_copy peer existing a.comments) d d2
          (law.commits (apply_answer db id (to_copy peer existing a.comments)) d d2 applied) in
      let (issue', comments', labels') = close_if_open-effect db c law id found d2 d' at closed in
      (
        (found, sym issue ∙ at, issue'),
        comments'
            ∙ comments
            ∙ ap (λ q. c.comments_of d id ++ map result (to_copy peer q a.comments)) (sym had),
        λ x.
            subst (λ ls. In x ls ↔ ((In x (c.labels_of d id) × (x ≡ pending → ⊥)) ⊎ (x ≡ resolved)))
              (sym labels') (labels x),
      )

  answer_issue-effect :
      (peer : Text) (a : SubmitAnswer) (k : ℤ) (d d' : D) (id : ℤ)
      → answer_issue db peer a k d ≡ (ok id, d')
      → (k ≡ id) × IsAnswered peer a id d d'
  unfolding answer_issue
  answer_issue-effect peer a k d d' id h =
      let (existing, d1, read, rest) =
        bind_ok (λ s. (map_err (λ e. codes "reading comments: " ++ e) (db.get_comments k s), s)) _ d
          d' id h in
      let (u, d2, applied, rest2) =
        bind_ok
          (map_error (λ e. codes "applying answer: " ++ e)
            (db.transaction (apply_answer db k (to_copy peer existing a.comments))))
          _ d1 d' id rest in
      let (issue, d3, got, rest3) =
        bind_ok
          (λ s. (
            map_err (λ e. codes "loading issue " ++ display_int k ++ codes ": " ++ e)
                (db.get_issue k s),
            s,
          ))
          _ d2 d' id rest2 in
      let (found, d4, there, rest4) =
        bind_ok (lift (ok_or issue (codes "issue " ++ display_int k ++ codes " disappeared"))) _ d3
          d' id rest3 in
      let (v, d5, closed, last) = bind_ok (close_if_open db k found) _ d4 d' id rest4 in
      let same : k ≡ id = ground arith in
      let start : d1 ≡ d = ground arith in
      let kept : d3 ≡ d2 = ground arith in
      let kept' : d4 ≡ d2 = ground arith in
      let end : d5 ≡ d' = ground arith in
      (
        same,
        subst (λ i. IsAnswered peer a i d d') same
            (phases-IsAnswered peer a k existing found d d2 d'
              (law.get_comments_lem k d existing (ground arith)) (ground arith)
              (law.get_issue_lem k d2 (some found) (ground (arith, Option-cases issue)))
              (subst (λ t. close_if_open db k found t ≡ (ok tt, d')) kept'
                (closed ∙ ap (λ t. (ok tt, t)) end))),
      )

  -- Over a lawful database: an answer that is accepted is for an issue, open or closed, that
  -- carries the reference; it closes the issue, appends with the peer's name those of its
  -- results that the issue has not got, in order, and replaces the label xb-status:pending by
  -- xb-status:resolved.
  pub answer_effect :
      (peer : Text) (a : SubmitAnswer) (d d' : D) (id : ℤ)
      → handle_answer db peer a d ≡ (ok id, d')
      → IsKnown db c law (ref_label a.source_uuid) d id × IsAnswered peer a id d d'
  unfolding handle_answer
  answer_effect peer a d d' id h =
      elim (Result-cases (find_issue_with_label db (ref_label a.source_uuid) d)) [
        | inr (e, he) ↦ ground arith
        | inl (none, he) ↦ ground arith
        | inl (some k, he) ↦
            let run : answer_issue db peer a k d ≡ (ok id, d') = ground arith in
            let (same, effect) = answer_issue-effect peer a k d d' id run in
            (
              subst (IsKnown db c law (ref_label a.source_uuid) d) same
                  ((find_issue_lem db c law (ref_label a.source_uuid) d (some k) he).0 k refl),
              effect,
            )
      ]

  -- Over a lawful database: an answer for a reference that no open or closed issue carries is
  -- refused, with the reference in the message, and changes nothing, if the lookup can read the
  -- database.
  pub answer_unknown :
      (peer : Text) (a : SubmitAnswer) (d : D) (o : Option ℤ)
      → find_issue_with_label db (ref_label a.source_uuid) d ≡ ok o
      → ((id : ℤ) → IsKnown db c law (ref_label a.source_uuid) d id → ⊥)
      → handle_answer db peer a d
        ≡ (err (codes "no local issue with label " ++ ref_label a.source_uuid), d)
  unfolding handle_answer
  answer_unknown peer a d none look unknown = ground arith
  answer_unknown peer a d (some id) look unknown =
      absurd (
        unknown id ((find_issue_lem db c law (ref_label a.source_uuid) d (some id) look).0 id refl))
