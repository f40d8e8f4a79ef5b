-- ===== src/Server/Handler/Again.antt =====
-- crossbridge-server/src/handler.rs, handle_answer: the same answer a second time.
use mathlib.Core.Option
use crossbridge.Prelude.{
  Bool, false, not, List, [], ◌∷◌, ◌++◌, ◌≡◌, ◌⊎◌, ◌↔◌, inl, inr, refl, sym, ap, ◌∙◌, arith, In, ok,
  Bool-cases, ◌==◌, map, filter, contains, contains_iff, append-nil, In-filter,
}
use crossbridge.Prelude.Text.{Text, codes, text_has_eq}
use crossbridge.Prelude.Decimal.{ℤ}
use crossbridge.Protocol.{AnswerComment, SubmitAnswer}
use crossbridge.Crosslink.{Database, Contents, IsLawful, Issue, Comment, closed_status}
use crossbridge.Server.Handler.{handle_answer, to_copy}
use crossbridge.Server.Handler.Phases.{result, IsResolved}
use crossbridge.Server.Handler.Answer.{IsAnswered, answer_effect}

filter-none :
    {A : Type 0} (p : A → Bool) (xs : List A) → ((x : A) → In x xs → p x ≡ false) → filter p xs ≡ []
filter-none p [] h = refl
filter-none p (x ∷ xs) h = rw (h x (inl refl)) (filter-none p xs (λ y k. h y (inr k)))

abbrev content : Comment → Text
content q = q.content

contents-new : (x : Text) (new : List Text) → In x new → In x (map content (map result new))
contents-new x [] h = absurd h
contents-new x (y ∷ new) (inl e) = inl e
contents-new x (y ∷ new) (inr h) = inr (contents-new x new h)

contents-append :
    (x : Text) (old : List Comment) (new : List Text)
    → In x (map content old) ⊎ In x new
    → In x (map content (old ++ map result new))
contents-append x [] new (inl h) = absurd h
contents-append x [] new (inr h) = contents-new x new h
contents-append x (q ∷ old) new (inl (inl e)) = inl e
contents-append x (q ∷ old) new (inl (inr h)) = inr (contents-append x old new (inl h))
contents-append x (q ∷ old) new (inr h) = inr (contents-append x old new (inr h))

abbrev absent : List Comment → Text → Bool
absent old x = not (contains (map content old) x)

absent-filtered :
    (old : List Comment) (raw : List Text) (x : Text)
    → In x raw
    → absent (old ++ map result (filter (absent old) raw)) x ≡ false
absent-filtered old raw x k = ap not (
    (contains_iff x (map content (old ++ map result (filter (absent old) raw)))).1 (
      contents-append x old (filter (absent old) raw)
        (elim (Bool-cases (contains (map content old) x)) [
          | inl e ↦ inl ((contains_iff x (map content old)).0 e)
          | inr e ↦ inr ((In-filter (absent old) x raw).1 (k, ap not e))
        ])))

-- What was copied is not copied again.
pub to_copy-again :
    (peer : Text) (old : List Comment) (cs : List AnswerComment)
    → to_copy peer (old ++ map result (to_copy peer old cs)) cs ≡ []
unfolding to_copy
to_copy-again peer old cs =
    filter-none (absent (old ++ map result (filter (absent old) results))) results
      (λ x k. absent-filtered old results x k)
  where
    results : List Text
    results =
        map (λ r. codes "[from " ++ peer ++ codes "] " ++ r.content)
          (filter (λ r. r.kind == codes "result") cs)

abbrev closed_version : Issue → Issue
closed_version i = record i { status = closed_status }

module _ {D : Type 0} (db : Database D) (c : Contents D) (law : IsLawful db c) where
  -- Over a lawful database: the same answer accepted again, for the same issue, adds no comment
  -- and leaves the issue and the set of its labels as they are.
  pub answer_again :
      (peer : Text) (a : SubmitAnswer) (d d' d'' : D) (id : ℤ)
      → handle_answer db peer a d ≡ (ok id, d')
      → handle_answer db peer a d' ≡ (ok id, d'')
      → (c.comments_of d'' id ≡ c.comments_of d' id)
        × (c.issue_of d'' id ≡ c.issue_of d' id)
        × ((x : Text) → In x (c.labels_of d'' id) ↔ In x (c.labels_of d' id))
  unfolding IsAnswered IsResolved
  answer_again peer a d d' d'' id h h' =
      let (known, effect) = answer_effect db c law peer a d d' id h in
      let ((i, at, at'), comments, labels) = effect in
      let (known', effect') = answer_effect db c law peer a d' d'' id h' in
      let ((j, was, is'), comments', labels') = effect' in
      let nothing : to_copy peer (c.comments_of d' id) a.comments ≡ [] =
        ap (λ q. to_copy peer q a.comments) comments
        ∙ to_copy-again peer (c.comments_of d id) a.comments in
      (
        comments' ∙ ap (λ q. c.comments_of d' id ++ map result q) nothing ∙ append-nil _,
        is' ∙ ap (Option.map closed_version) (sym was ∙ at') ∙ sym at',
        λ x. ground (arith, labels x, labels' x),
      )
