-- ===== src/Server/Handler/Orphans.antt =====
-- crossbridge-server/src/handler.rs, handle_submit: what is left where the labels cannot be applied.
use crossbridge.Prelude.{
  none, some, List, [], ◌++◌, ◌≡◌, refl, sym, ◌∙◌, subst, inl, inr, arith, In, Result, ok, err,
  Bool-cases, ◌==◌,
}
use crossbridge.Prelude.Text.{Text, codes}
use crossbridge.Prelude.Decimal.{ℤ, int_has_eq, int_eq_iff}
use crossbridge.Protocol.{Attachment, SubmitIssue}
use crossbridge.Crosslink.{Database, Contents, IsLawful}
use crossbridge.Server.Attachment.{MaterializedAttachment}
use crossbridge.Server.Handler.{
  answer_instruction_footer, inbound_labels, add_labels, ref_label, find_issue_with_label,
  create_inbound, handle_submit,
}
use crossbridge.Server.Handler.Find.{IsKnown, find_issue_lem}
use crossbridge.Server.Handler.Submit.{filed}

module _ {D : Type 0} (db : Database D) (c : Contents D) (law : IsLawful db c)
    (materialize : List Attachment → Result Text MaterializedAttachment) where
  -- A new issue without labels does not answer a lookup that nothing answered before.
  still_unknown :
      (s : SubmitIssue) (label : Text) (d d' : D) (id : ℤ)
      → ((k : ℤ) → IsKnown db c law label d k → ⊥)
      → db.create_issue s.title (some (s.body ++ answer_instruction_footer)) (codes "high") d
        ≡ (ok id, d')
      → (c.labels_of d' id ≡ []) × ((k : ℤ) → IsKnown db c law label d' k → ⊥)
  unfolding IsKnown
  still_unknown s label d d' id unknown made =
      let body = some (s.body ++ answer_instruction_footer) in
      let bare : c.labels_of d' id ≡ [] =
        (law.create_keeps s.title body (codes "high") d d' id made id).0
        ∙ (law.create_fresh s.title body (codes "high") d d' id made).1 in
      (
        bare,
        λ k (i, at, which, carried). elim (Bool-cases (id == k)) [
          | inl same ↦
              subst (In label) bare
                (subst (λ x. In label (c.labels_of d' x)) (sym ((int_eq_iff id k).0 same)) carried)
          | inr other ↦ unknown k (
            i,
            ground
                (arith, at, other, law.create_issue_of s.title body (codes "high") d d' id made k),
            which,
            subst (In label) (law.create_keeps s.title body (codes "high") d d' id made k).0
                carried,
          )
        ],
      )

  -- Over a lawful database: where a submit creates its issue and cannot label it, it is answered by
  -- an error, but the issue stays, open and without labels, and no issue carries the reference: the
  -- lookup of another submit with that reference will not find it.
  pub unlabelled_stays :
      (s : SubmitIssue) (d d1 d2 : D) (id : ℤ) (e : Text)
      → find_issue_with_label db (ref_label s.source_uuid) d ≡ ok none
      → db.create_issue s.title (some (s.body ++ answer_instruction_footer)) (codes "high") d
        ≡ (ok id, d1)
      → db.transaction (add_labels db id (inbound_labels s)) d1 ≡ (err e, d2)
      → (handle_submit db materialize s d ≡ (err (codes "applying labels: " ++ e), d2))
        × (c.issue_of d2 id ≡ some (filed db c law materialize id s))
        × (c.labels_of d2 id ≡ [])
        × ((k : ℤ) → IsKnown db c law (ref_label s.source_uuid) d2 k → ⊥)
  unfolding handle_submit create_inbound filed
  unlabelled_stays s d d1 d2 id e look made fails =
      let back : d2 ≡ d1 = law.rolls_back (add_labels db id (inbound_labels s)) e d1 d2 fails in
      let label = ref_label s.source_uuid in
      let (bare, unknown) =
        still_unknown s label d d1 id ((find_issue_lem db c law label d none look).1 refl) made in
      (
        ground (arith, look, made, fails),
        rw back (
            ground (
              arith,
              int_eq_iff id id,
              law.create_issue_of s.title (some (s.body ++ answer_instruction_footer))
                  (codes "high") d d1 id made id,
            )),
        rw back bare,
        rw back unknown,
      )
