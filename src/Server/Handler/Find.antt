-- ===== src/Server/Handler/Find.antt =====
-- crossbridge-server/src/handler.rs, find_issue_with_label: what the lookup by label comes to.
use crossbridge.Prelude.{
  Option, none, some, List, [], ◌∷◌, ◌≡◌, inl, inr, refl, sym, ap, ◌∙◌, arith, In, ok, Result-cases,
}
use crossbridge.Prelude.Text.{Text}
use crossbridge.Prelude.Decimal.{ℤ}
use crossbridge.Crosslink.{Database, Contents, IsLawful, Issue, open_status, closed_status}
use crossbridge.Server.Handler.{find_by_status, find_issue_with_label}

module _ {D : Type 0} (db : Database D) (c : Contents D) (law : IsLawful db c) where
  -- An issue with the label and one of the statuses.
  unfoldable pub Carries : List Text → Text → D → ℤ → Type 0
  Carries statuses label d id =
      (i : Issue) × (c.issue_of d id ≡ some i) × In i.status statuses × In label (c.labels_of d id)

  pub found_lem :
      (statuses : List Text) (label : Text) (d : D) (id : ℤ)
      → find_by_status db statuses label d ≡ ok (some id)
      → Carries statuses label d id
  unfolding find_by_status Carries
  found_lem [] label d id h = ground arith
  found_lem (status ∷ rest) label d id h =
      elim (Result-cases (db.list_issues (some status) (some label) d)) [
        | inr (e, he) ↦ ground arith
        | inl ([], he) ↦
            (let (i, at, which, l) = found_lem rest label d id (ground arith) in
              (i, at, inr which, l))
        | inl (i ∷ is, he) ↦
            let (at, which, l) = law.list_sound status label d (i ∷ is) i he (inl refl) in
            let same : i.id ≡ id = ground arith in rw (sym same) (i, at, inl which, l)
      ]

  pub not_found_lem :
      (statuses : List Text) (label : Text) (d : D) (id : ℤ)
      → find_by_status db statuses label d ≡ ok none
      → Carries statuses label d id
      → ⊥
  unfolding find_by_status Carries
  not_found_lem [] label d id h k = ground arith
  not_found_lem (status ∷ rest) label d id h (i, at, which, l) =
      elim (Result-cases (db.list_issues (some status) (some label) d)) [
        | inr (e, he) ↦ ground arith
        | inl (j ∷ is, he) ↦ ground arith
        | inl ([], he) ↦ elim which [
          | inl e ↦ (let (j, k, q) = law.list_complete status label d [] id i he at e l in k)
          | inr r ↦ not_found_lem rest label d id (ground arith) (i, at, r, l)
        ]
      ]

  -- What the lookup looks for: an open or a closed issue with the label.
  unfoldable pub IsKnown : Text → D → ℤ → Type 0
  unfolding Carries
  IsKnown label d id = Carries (open_status ∷ closed_status ∷ []) label d id

  -- Over a lawful database: what the lookup finds is an open or closed issue with the label, and
  -- where it finds none without an error, there is none.
  pub find_issue_lem :
      (label : Text) (d : D) (o : Option ℤ)
      → find_issue_with_label db label d ≡ ok o
      → ((id : ℤ) → o ≡ some id → IsKnown label d id)
        × (o ≡ none → (id : ℤ) → IsKnown label d id → ⊥)
  unfolding find_issue_with_label IsKnown
  find_issue_lem label d o h = (
    λ id e. found_lem _ label d id (h ∙ ap ok e),
    λ e id k. not_found_lem _ label d id (h ∙ ap ok e) k,
  )
