-- ===== src/Server/Handler/Labels.antt =====
-- crossbridge-server/src/handler.rs: the labels of an inbound issue, and the loops over the database.
use crossbridge.Prelude.{
  List, [], ◌∷◌, ◌++◌, ◌≡◌, ◌⊎◌, ◌↔◌, inl, inr, sym, ◌∙◌, arith, In, Distinct, ok, Bool-cases,
  contains, contains_iff, In-append_left, In-append_right, In-append_cases, if◌then◌else◌,
  false≢true,
}
use crossbridge.Prelude.Text.{Text, codes, text_has_eq}
use crossbridge.Prelude.Decimal.{ℤ, int_has_eq}
use crossbridge.Protocol.{SubmitIssue}
use crossbridge.Prelude.Action.{bind_ok}
use crossbridge.Crosslink.{Database, Contents, IsLawful}
use crossbridge.Server.Handler.{push_missing, inbound_labels, add_labels, ref_label}

pub push_missing_old :
    (x : Text) (labels ls : List Text) → In x labels → In x (push_missing labels ls)
unfolding push_missing
push_missing_old x labels [] h = h
push_missing_old x labels (l ∷ ls) h = elim (Bool-cases (contains labels l)) [
  | inl e ↦ rw e (push_missing_old x labels ls h)
  | inr e ↦ rw e (push_missing_old x (labels ++ l ∷ []) ls (In-append_left x labels (l ∷ []) h))
]

pub push_missing_new : (x : Text) (labels ls : List Text) → In x ls → In x (push_missing labels ls)
unfolding push_missing
push_missing_new x labels [] h = absurd h
push_missing_new x labels (l ∷ ls) (inr h) =
    push_missing_new x (if contains labels l then labels else labels ++ l ∷ []) ls h
push_missing_new x labels (l ∷ ls) (inl e) = elim (Bool-cases (contains labels l)) [
  | inl k ↦ rw k (push_missing_old x labels ls (rw e ((contains_iff l labels).0 k)))
  | inr k ↦
      rw k (push_missing_old x (labels ++ l ∷ []) ls (In-append_right x labels (l ∷ []) (inl e)))
]

pub push_missing_only :
    (x : Text) (labels ls : List Text) → In x (push_missing labels ls) → In x labels ⊎ In x ls
unfolding push_missing
push_missing_only x labels [] h = inl h
push_missing_only x labels (l ∷ ls) h = elim (Bool-cases (contains labels l)) [
  | inl k ↦ ground (arith, push_missing_only x labels ls)
  | inr k ↦
      ground (arith, push_missing_only x (labels ++ l ∷ []) ls, In-append_cases x labels (l ∷ []))
]

Distinct-snoc :
    (l : Text) (labels : List Text)
    → (In l labels → ⊥)
    → Distinct labels
    → Distinct (labels ++ l ∷ [])
Distinct-snoc l [] h d = (λ k. k, tt)
Distinct-snoc l (x ∷ labels) h (new, d) = (
  λ k. elim (In-append_cases x labels (l ∷ []) k) [
    | inl q ↦ new q
    | inr (inl q) ↦ h (inl (sym q))
    | inr (inr q) ↦ absurd q
  ],
  Distinct-snoc l labels (λ k. h (inr k)) d,
)

push_missing-Distinct :
    (labels ls : List Text) → Distinct labels → Distinct (push_missing labels ls)
unfolding push_missing
push_missing-Distinct labels [] d = d
push_missing-Distinct labels (l ∷ ls) d = elim (Bool-cases (contains labels l)) [
  | inl k ↦ rw k (push_missing-Distinct labels ls d)
  | inr k ↦ rw k (
      push_missing-Distinct (labels ++ l ∷ []) ls
        (Distinct-snoc l labels (λ q. false≢true (sym k ∙ (contains_iff l labels).1 q)) d))
]

-- The labels that the server sets itself.
unfoldable pub own_labels : SubmitIssue → List Text
own_labels s =
    codes "type:request"
    ∷ codes "xb:inbound"
    ∷ codes "xb-status:open"
    ∷ (codes "xb-source:" ++ s.source_slug)
    ∷ ref_label s.source_uuid
    ∷ []

-- The labels of an inbound issue are the server's five and the client's, and no label stands twice.
pub inbound_labels_lem :
    (s : SubmitIssue)
    → ((x : Text) → In x (inbound_labels s) ↔ (In x (own_labels s) ⊎ In x s.labels))
      × Distinct (inbound_labels s)
unfolding inbound_labels own_labels codes
inbound_labels_lem s = (
  λ x. (
    λ h. push_missing_only x _ s.labels h,
    λ h. elim h [
      | inl k ↦ push_missing_old x _ s.labels k
      | inr k ↦ push_missing_new x _ s.labels k
    ],
  ),
  push_missing-Distinct _ s.labels (ground arith),
)

module _ {D : Type 0} (db : Database D) (c : Contents D) (law : IsLawful db c) where
  -- Everything but the labels of `id`.
  pub add_labels-keeps :
      (id : ℤ) (ls : List Text) (d d' : D)
      → add_labels db id ls d ≡ (ok tt, d')
      → (j : ℤ) → (c.issue_of d' j ≡ c.issue_of d j) × (c.comments_of d' j ≡ c.comments_of d j)
  unfolding add_labels
  add_labels-keeps id [] d d' h j = ground arith
  add_labels-keeps id (l ∷ ls) d d' h j =
      let (u, t, e, r) = bind_ok (db.add_label id l) (λ _. add_labels db id ls) d d' tt h in
      ground (arith, law.add_label_keeps id l d t e j, add_labels-keeps id ls t d' r j)

  pub add_labels-In :
      (id : ℤ) (ls : List Text) (d d' : D)
      → add_labels db id ls d ≡ (ok tt, d')
      → (j : ℤ) (x : Text)
      → In x (c.labels_of d' j) ↔ (In x (c.labels_of d j) ⊎ ((id ≡ j) × In x ls))
  unfolding add_labels
  add_labels-In id [] d d' h j x =
      let same : d ≡ d' = ground arith in rw (sym same) (λ k. inl k, λ k. ground arith)
  add_labels-In id (l ∷ ls) d d' h j x =
      let (u, t, e, r) = bind_ok (db.add_label id l) (λ _. add_labels db id ls) d d' tt h in
      ground (arith, law.add_label_lem id l d t e j x, add_labels-In id ls t d' r j x)
