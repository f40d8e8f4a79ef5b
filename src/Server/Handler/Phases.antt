-- ===== src/Server/Handler/Phases.antt =====
-- crossbridge-server/src/handler.rs, handle_answer: what its transaction and its closing of the issue
-- do to the issue.
use crossbridge.Prelude.{
  some, List, [], ◌∷◌, ◌++◌, ◌≡◌, ◌⊎◌, ◌↔◌, inl, inr, refl, sym, ap, subst, ◌∙◌, arith, In, ok,
  Bool-cases, ◌==◌, false≢true, map, contains, contains_iff, append_assoc, append-nil,
}
use crossbridge.Prelude.Text.{Text, codes, text_has_eq, text_eq_iff}
use crossbridge.Prelude.Action.{bind_ok, map_error_ok}
use crossbridge.Prelude.Decimal.{ℤ, display_int, int_has_eq, int_eq_iff}
use crossbridge.Crosslink.{Database, Contents, IsLawful, Issue, Comment, closed_status}
use crossbridge.Server.Handler.{
  add_results, drop_pending, mark_resolved, apply_answer, close_if_open,
}

abbrev pub pending : Text
pending = codes "xb-status:pending"

abbrev pub resolved : Text
resolved = codes "xb-status:resolved"

resolved≢pending : resolved ≡ pending → ⊥
unfolding codes
resolved≢pending h = ground arith

abbrev pub result : Text → Comment
result t = record { content = t; kind = codes "result" }

module _ {D : Type 0} (db : Database D) (c : Contents D) (law : IsLawful db c) where
  add_results-effect :
      (id : ℤ) (cs : List Text) (d d' : D)
      → add_results db id cs d ≡ (ok tt, d')
      → (c.comments_of d' id ≡ c.comments_of d id ++ map result cs)
        × (c.issue_of d' id ≡ c.issue_of d id)
        × (c.labels_of d' id ≡ c.labels_of d id)
  unfolding add_results
  add_results-effect id [] d d' h =
      let same : d ≡ d' = ground arith in rw (sym same) (sym (append-nil _), refl, refl)
  add_results-effect id (x ∷ cs) d d' h =
      let (u, t, e, r) =
        bind_ok (db.add_comment id x (codes "result")) (λ _. add_results db id cs) d d' tt h in
      let (comments, issue, labels) = add_results-effect id cs t d' r in
      let here : c.comments_of t id ≡ c.comments_of d id ++ result x ∷ [] =
        ground (arith, law.add_comment_lem id x (codes "result") d t e id, int_eq_iff id id) in
      (
        comments ∙ ap (λ q. q ++ map result cs) here ∙ append_assoc (c.comments_of d id) _ _,
        ground (arith, law.add_comment_keeps id x (codes "result") d t e id),
        ground (arith, law.add_comment_keeps id x (codes "result") d t e id),
      )

  drop_pending-effect :
      (id : ℤ) (labels : List Text) (d d' : D)
      → c.labels_of d id ≡ labels
      → drop_pending db id labels d ≡ (ok tt, d')
      → ((x : Text) → In x (c.labels_of d' id) ↔ (In x (c.labels_of d id) × (x ≡ pending → ⊥)))
        × (c.issue_of d' id ≡ c.issue_of d id)
        × (c.comments_of d' id ≡ c.comments_of d id)
  unfolding drop_pending
  drop_pending-effect id labels d d' at h = elim (Bool-cases (contains labels pending)) [
    | inl e ↦
        let gone : db.remove_label id pending d ≡ (ok tt, d') = ground arith in
        (
          λ x. ground (arith, law.remove_label_lem id pending d d' gone id x),
          ground (arith, law.remove_label_keeps id pending d d' gone id),
          ground (arith, law.remove_label_keeps id pending d d' gone id),
        )
    | inr e ↦
        let same : d ≡ d' = ground arith in
        rw (sym same) (
          λ x. (
            λ k. (
              k,
              λ q. false≢true (
                  sym e
                  ∙ (contains_iff pending labels).1
                      (subst (In pending) at (subst (λ y. In y (c.labels_of d id)) q k))),
            ),
            λ k. k.0,
          ),
          refl,
          refl,
        )
  ]

  mark_resolved-effect :
      (id : ℤ) (labels : List Text) (d d' : D)
      → (In resolved labels → In resolved (c.labels_of d id))
      → mark_resolved db id labels d ≡ (ok tt, d')
      → ((x : Text) → In x (c.labels_of d' id) ↔ (In x (c.labels_of d id) ⊎ (x ≡ resolved)))
        × (c.issue_of d' id ≡ c.issue_of d id)
        × (c.comments_of d' id ≡ c.comments_of d id)
  unfolding mark_resolved
  mark_resolved-effect id labels d d' at h = elim (Bool-cases (contains labels resolved)) [
    | inr e ↦
        let added : db.add_label id resolved d ≡ (ok tt, d') = ground arith in
        (
          λ x. ground (arith, law.add_label_lem id resolved d d' added id x),
          ground (arith, law.add_label_keeps id resolved d d' added id),
          ground (arith, law.add_label_keeps id resolved d d' added id),
        )
    | inl e ↦
        let same : d ≡ d' = ground arith in
        rw (sym same) (
          λ x. (
            λ k. inl k,
            λ k. elim k [ inl q ↦ q | inr q ↦ rw q (at ((contains_iff resolved labels).0 e)) ],
          ),
          refl,
          refl,
        )
  ]

  -- `resolved` instead of `pending`, the other labels as before.
  unfoldable pub IsResolved : List Text → List Text → Type 0
  IsResolved old new = (x : Text) → In x new ↔ ((In x old × (x ≡ pending → ⊥)) ⊎ (x ≡ resolved))

  pub apply_answer-effect :
      (id : ℤ) (cs : List Text) (d d' : D)
      → apply_answer db id cs d ≡ (ok tt, d')
      → (c.comments_of d' id ≡ c.comments_of d id ++ map result cs)
        × (c.issue_of d' id ≡ c.issue_of d id)
        × IsResolved (c.labels_of d id) (c.labels_of d' id)
  unfolding apply_answer IsResolved
  apply_answer-effect id cs d d' h =
      let (u, d1, copied, rest) = bind_ok (add_results db id cs) _ d d' tt h in
      let (labels, d2, read, rest2) = bind_ok (λ s. (db.get_labels id s, s)) _ d1 d' tt rest in
      let (v, d3, dropped, marked) = bind_ok (drop_pending db id labels) _ d2 d' tt rest2 in
      let (comments1, issue1, labels1) = add_results-effect id cs d d1 copied in
      let same : d1 ≡ d2 = ground arith in
      let at1 : c.labels_of d1 id ≡ labels = law.get_labels_lem id d1 labels (ground arith) in
      let at : c.labels_of d2 id ≡ labels = ap (λ s. c.labels_of s id) (sym same) ∙ at1 in
      let (labels3, issue3, comments3) = drop_pending-effect id labels d2 d3 at dropped in
      let (labels4, issue4, comments4) =
        mark_resolved-effect id labels d3 d'
          (λ k. (labels3 resolved).1 (subst (In resolved) (sym at) k, resolved≢pending)) marked in
      let old : labels ≡ c.labels_of d id = sym at1 ∙ labels1 in
      (
        comments4 ∙ comments3 ∙ ap (λ s. c.comments_of s id) (sym same) ∙ comments1,
        issue4 ∙ issue3 ∙ ap (λ s. c.issue_of s id) (sym same) ∙ issue1,
        λ x.
            subst
              (λ ls. In x (c.labels_of d' id) ↔ ((In x ls × (x ≡ pending → ⊥)) ⊎ (x ≡ resolved)))
              (at ∙ old) (ground (arith, labels3 x, labels4 x)),
      )

  pub close_if_open-effect :
      (id : ℤ) (i : Issue) (d d' : D)
      → c.issue_of d id ≡ some i
      → close_if_open db id i d ≡ (ok tt, d')
      → (c.issue_of d' id ≡ some (record i { status = closed_status }))
        × (c.comments_of d' id ≡ c.comments_of d id)
        × (c.labels_of d' id ≡ c.labels_of d id)
  unfolding close_if_open
  close_if_open-effect id i d d' at h = elim (Bool-cases (i.status == closed_status)) [
    | inl e ↦
        let same : d ≡ d' = ground arith in
        rw (sym same) (
          at
              ∙ ap (λ st. some (record i { status = st }))
                  ((text_eq_iff i.status closed_status).0 e),
          refl,
          refl,
        )
    | inr e ↦
        let closed : db.close_issue id d ≡ (ok tt, d') =
          map_error_ok (λ e. codes "closing issue " ++ display_int id ++ codes ": " ++ e)
            (db.close_issue id) d d' tt (ground arith) in
        (
          law.close_issue_lem id d d' i closed at,
          ground (arith, law.close_keeps id d d' closed id),
          ground (arith, law.close_keeps id d d' closed id),
        )
  ]
