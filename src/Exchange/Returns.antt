-- ===== src/Exchange/Returns.antt =====
-- The way back of a submitted issue: answer_cmd of crossbridge-client/src/main.rs on the instance
-- that the issue was filed on, and handle_answer of crossbridge-server/src/handler.rs on the one
-- that it came from.
use crossbridge.Prelude.{
  none, some, List, [], ◌++◌, ◌≡◌, ◌⊎◌, ◌↔◌, refl, sym, ap, ◌∙◌, subst, inl, inr, In, ok,
}
use crossbridge.Prelude.Text.{Text, codes, strip_prefix}
use crossbridge.Prelude.Text.Laws.{strip_prefix-append}
use crossbridge.Prelude.Decimal.{ℤ}
use crossbridge.Protocol.{SubmitIssue, SubmitAnswer, answer, done}
use crossbridge.Crosslink.{Contents, IsLawful, Issue, Comment, closed_status}
use crossbridge.Server.Handler
use crossbridge.Server.Handler.{
  find_issue_with_label, inbound_labels, handle_submit, handle_answer, respond, dispatch,
}
use crossbridge.Server.Handler.Find.{IsKnown}
use crossbridge.Server.Handler.Labels.{own_labels, inbound_labels_lem}
use crossbridge.Server.Handler.Submit.{IsFiled, filed, submit_files_issue}
use crossbridge.Server.Handler.Answer
use crossbridge.Server.Handler.Answer.{answer_effect}
use crossbridge.Client.Labels.{source_prefix, ref_prefix}
use crossbridge.Client.Commands.{peer_socket, results_of, answer_cmd}
use crossbridge.Client.Commands.Answers.{IsDelivered, IsAnswered, answer_cmd_effect}
use crossbridge.Exchange.{Instance, Reaches, respond_done}

-- A label that neither names a source nor is a reference.
unfoldable pub IsPlain : Text → Type 0
IsPlain l = (strip_prefix source_prefix l ≡ none) × (strip_prefix ref_prefix l ≡ none)

stripped : (p t : Text) {l : Text} → p ++ t ≡ l → strip_prefix p l ≡ some t
stripped p t h = ap (strip_prefix p) (sym h) ∙ strip_prefix-append p t

some_inj {ℓ} : {A : Type ℓ} {a b : A} → some a ≡ some b → a ≡ b
some_inj h = cc

some≢none : {a : Text} → some a ≡ none → ⊥
some≢none h = cc

-- The only label of an inbound issue that says where it came from, and the only one with a
-- reference, where the client's labels have none.
origin_of :
    (s : SubmitIssue)
    → ((l : Text) → In l s.labels → IsPlain l)
    → ((slug : Text) → In (source_prefix ++ slug) (inbound_labels s) → slug ≡ s.source_slug)
      × ((uuid : Text) → In (ref_prefix ++ uuid) (inbound_labels s) → uuid ≡ s.source_uuid)
unfolding IsPlain own_labels strip_prefix codes
origin_of s plain = (
  λ slug h. elim (((inbound_labels_lem s).0 (source_prefix ++ slug)).0 h) [
    | inr k ↦ absurd (some≢none (sym (stripped source_prefix slug refl) ∙ (plain _ k).0))
    | inl (inl e) ↦ absurd (some≢none (sym (stripped source_prefix slug e)))
    | inl (inr (inl e)) ↦ absurd (some≢none (sym (stripped source_prefix slug e)))
    | inl (inr (inr (inl e))) ↦ absurd (some≢none (sym (stripped source_prefix slug e)))
    | inl (inr (inr (inr (inl e)))) ↦
        some_inj
          (sym (stripped source_prefix slug e) ∙ strip_prefix-append source_prefix s.source_slug)
    | inl (inr (inr (inr (inr (inl e))))) ↦ absurd (some≢none (sym (stripped source_prefix slug e)))
    | inl (inr (inr (inr (inr (inr z))))) ↦ absurd z
  ],
  λ uuid h. elim (((inbound_labels_lem s).0 (ref_prefix ++ uuid)).0 h) [
    | inr k ↦ absurd (some≢none (sym (stripped ref_prefix uuid refl) ∙ (plain _ k).1))
    | inl (inl e) ↦ absurd (some≢none (sym (stripped ref_prefix uuid e)))
    | inl (inr (inl e)) ↦ absurd (some≢none (sym (stripped ref_prefix uuid e)))
    | inl (inr (inr (inl e))) ↦ absurd (some≢none (sym (stripped ref_prefix uuid e)))
    | inl (inr (inr (inr (inl e)))) ↦ absurd (some≢none (sym (stripped ref_prefix uuid e)))
    | inl (inr (inr (inr (inr (inl e))))) ↦
        some_inj (sym (stripped ref_prefix uuid e) ∙ strip_prefix-append ref_prefix s.source_uuid)
    | inl (inr (inr (inr (inr (inr z))))) ↦ absurd z
  ],
)

module _ {D E : Type 0} (x : Instance D) (y : Instance E) (cx : Contents D) (cy : Contents E)
    (lawful_x : IsLawful x.db cx) (lawful_y : IsLawful y.db cy) where
  -- The answer that the client of `y` sends for a reference and the comments of an issue.
  unfoldable pub sent_answer : Text → List Comment → SubmitAnswer
  sent_answer uuid cs = record {
    source_uuid = uuid;
    comments = results_of y.db y.fs y.env y.exchange cs;
    attachments = [];
  }

  comes_back :
      (a : SubmitAnswer) (id n : ℤ) (d : D)
      → Reaches y x d (answer a)
      → ((k : ℤ) → IsKnown x.db cx lawful_x (Handler.ref_label a.source_uuid) d k → k ≡ id)
      → y.exchange (peer_socket y.env y.slug x.slug) x.slug (answer a) ≡ ok (done n)
      → (d' : D) × (handle_answer x.db y.slug a d ≡ (ok id, d'))
        × Answer.IsAnswered x.db cx lawful_x y.slug a id d d'
  unfolding Reaches dispatch
  comes_back a id n d reaches alone sent =
      let back : ok (respond x.db (handle_answer x.db y.slug a d).0) ≡ ok (done n) =
        sym reaches ∙ sent in
      let done_n = respond_done x.db (handle_answer x.db y.slug a d).0 n (cc) in
      let d' = (handle_answer x.db y.slug a d).1 in
      let run : handle_answer x.db y.slug a d ≡ (ok n, d') = ap (λ r. (r, d')) done_n in
      let (known, effect) = answer_effect x.db cx lawful_x y.slug a d d' n run in
      let same : n ≡ id = alone n known in
      (
        d',
        subst (λ k. handle_answer x.db y.slug a d ≡ (ok k, d')) same run,
        subst (λ k. Answer.IsAnswered x.db cx lawful_x y.slug a k d d') same effect,
      )

  -- The issue of a submit keeps its contents and gets no further source and no further reference.
  unfoldable pub IsSameInbound : ℤ → E → E → Type 0
  IsSameInbound n e e' =
      (cy.issue_of e' n ≡ cy.issue_of e n)
      × ((l : Text) → In l (cy.labels_of e' n) → In l (cy.labels_of e n) ⊎ IsPlain l)

  labelled_by :
      (s : SubmitIssue) (n : ℤ) (e1 e2 : E)
      → ((l : Text) → In l s.labels → IsPlain l)
      → ((l : Text) → In l (cy.labels_of e1 n) ↔ In l (inbound_labels s))
      → IsSameInbound n e1 e2
      → ((slug : Text) → In (source_prefix ++ slug) (cy.labels_of e2 n) → slug ≡ s.source_slug)
        × ((uuid : Text) → In (ref_prefix ++ uuid) (cy.labels_of e2 n) → uuid ≡ s.source_uuid)
  unfolding IsSameInbound IsPlain
  labelled_by s n e1 e2 plain labels (same, kept) =
      let (of_source, of_ref) = origin_of s plain in
      (
        λ slug h. elim (kept (source_prefix ++ slug) h) [
          | inl k ↦ of_source slug ((labels _).0 k)
          | inr k ↦ absurd (some≢none (sym (strip_prefix-append source_prefix slug) ∙ k.0))
        ],
        λ uuid h. elim (kept (ref_prefix ++ uuid) h) [
          | inl k ↦ of_ref uuid ((labels _).0 k)
          | inr k ↦ absurd (some≢none (sym (strip_prefix-append ref_prefix uuid) ∙ k.1))
        ],
      )

  -- What was delivered, to a known peer and for a known reference.
  answer_sent :
      (n : ℤ) (ref slug uuid : Text) (i : Issue) (e e' : E)
      → slug ≡ x.slug
      → uuid ≡ ref
      → i.id ≡ n
      → IsDelivered y.db cy lawful_y y.fs y.env y.exchange y.slug i slug uuid e e'
      → (remote : ℤ) × (y.exchange
            (peer_socket y.env y.slug x.slug)
            x.slug
            (answer (sent_answer ref (cy.comments_of e n)))
          ≡ ok (done remote))
        × ((j : Issue)
            → cy.issue_of e n ≡ some j
            → cy.issue_of e' n ≡ some (record j { status = closed_status }))
  unfolding IsDelivered sent_answer
  answer_sent n ref slug uuid i e e' to about number (remote, there, sent, marks, closes) =
      rw (sym to, sym about, sym number) (remote, sent, closes)

  -- Between two lawful databases: `y` has filed an issue for a submit of `x` whose reference was
  -- new to it and whose labels name no other source or reference, and since then the issue has
  -- kept its contents and got no further source or reference. Where the server of `x` carries out
  -- what the client of `y` asks and only one issue there carries the reference, an answer command
  -- of `y` for its issue that succeeds has answered that issue of `x`, with the results of `y`'s
  -- issue and in the name of `y`, and has closed the issue of `y`.
  pub answer_returns :
      (s : SubmitIssue) (id n : ℤ) (line : Text) (d : D) (e e1 e2 e3 : E)
      → s.source_slug ≡ x.slug
      → ((l : Text) → In l s.labels → IsPlain l)
      → find_issue_with_label y.db (Handler.ref_label s.source_uuid) e ≡ ok none
      → handle_submit y.db y.materialize s e ≡ (ok n, e1)
      → IsSameInbound n e1 e2
      → Reaches y x d (answer (sent_answer s.source_uuid (cy.comments_of e2 n)))
      → ((k : ℤ) → IsKnown x.db cx lawful_x (Handler.ref_label s.source_uuid) d k → k ≡ id)
      → answer_cmd y.db y.fs y.env y.exchange y.slug n e2 ≡ (ok line, e3)
      → let a = sent_answer s.source_uuid (cy.comments_of e2 n) in
        (d' : D) × (handle_answer x.db y.slug a d ≡ (ok id, d'))
        × Answer.IsAnswered x.db cx lawful_x y.slug a id d d'
        × (cy.issue_of e3 n
            ≡ some (record (filed y.db cy lawful_y y.materialize n s) { status = closed_status }))
  unfolding IsAnswered IsFiled IsSameInbound filed sent_answer
  answer_returns s id n line d e e1 e2 e3 from plain unseen submitted kept reaches alone h =
      let (new, made, labels, others) =
        submit_files_issue y.db cy lawful_y y.materialize s e e1 n unseen submitted in
      let (of_source, of_ref) = labelled_by s n e1 e2 plain labels kept in
      let (i, slug, uuid, at, is_inbound, source, ref, delivered) =
        answer_cmd_effect y.db cy lawful_y y.fs y.env y.exchange y.slug line n e2 e3 h in
      let same : filed y.db cy lawful_y y.materialize n s ≡ i =
        some_inj (sym (kept.0 ∙ made) ∙ at) in
      let number : i.id ≡ n = ap (λ (j : Issue). j.id) (sym same) in
      let to : slug ≡ x.slug =
        of_source slug (subst (λ k. In (source_prefix ++ slug) (cy.labels_of e2 k)) number source)
        ∙ from in
      let about : uuid ≡ s.source_uuid =
        of_ref uuid (subst (λ k. In (ref_prefix ++ uuid) (cy.labels_of e2 k)) number ref) in
      let (remote, sent, closes) =
        answer_sent n s.source_uuid slug uuid i e2 e3 to about number delivered in
      let (d', run, effect) =
        comes_back (sent_answer s.source_uuid (cy.comments_of e2 n)) id remote d reaches alone
          sent in
      (d', run, effect, closes (filed y.db cy lawful_y y.materialize n s) (kept.0 ∙ made))
