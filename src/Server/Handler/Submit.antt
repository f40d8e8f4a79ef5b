-- ===== src/Server/Handler/Submit.antt =====
-- crossbridge-server/src/handler.rs, handle_submit: what it files, and that it files it once.
use crossbridge.Prelude.{
  Option, none, some, List, ◌++◌, ◌≡◌, ◌↔◌, inl, inr, refl, sym, ap, ◌∙◌, arith, In, Result, ok,
  err, Result-cases, Bool-cases, ◌==◌, false≢true,
}
use crossbridge.Prelude.Text.{Text, codes, text_has_eq}
use crossbridge.Prelude.Action.{Action, bind_ok, map_error_ok, map_error}
use crossbridge.Prelude.Decimal.{ℤ, int_has_eq, int_eq_iff}
use crossbridge.Protocol.{Attachment, SubmitIssue}
use crossbridge.Crosslink.{Database, Contents, IsLawful, Issue, open_status}
use crossbridge.Server.Attachment.{MaterializedAttachment}
use crossbridge.Server.Handler.{
  answer_instruction_footer, inbound_labels, add_labels, ref_label, find_issue_with_label, attach,
  create_inbound, handle_submit,
}
use crossbridge.Server.Handler.Find.{IsKnown, find_issue_lem}
use crossbridge.Server.Handler.Labels.{
  add_labels-keeps, add_labels-In, own_labels, inbound_labels_lem,
}
use crossbridge.Server.Handler.Notes.{IsNoted, attach-IsNoted}

module _ {D : Type 0} (db : Database D) (c : Contents D) (law : IsLawful db c)
    (materialize : List Attachment → Result Text MaterializedAttachment) where
  -- The issue that a submit files: its title, its body with the footer, open.
  unfoldable pub filed : ℤ → SubmitIssue → Issue
  filed id s = record {
    id = id;
    title = s.title;
    description = some (s.body ++ answer_instruction_footer);
    status = open_status;
  }

  unfoldable pub IsFiled : SubmitIssue → ℤ → D → D → Type 0
  IsFiled s id d d' =
      (c.issue_of d id ≡ none)
      × (c.issue_of d' id ≡ some (filed id s))
      × ((x : Text) → In x (c.labels_of d' id) ↔ In x (inbound_labels s))
      × ((j : ℤ)
          → (id ≡ j → ⊥)
          → (c.issue_of d' j ≡ c.issue_of d j)
            × (c.comments_of d' j ≡ c.comments_of d j)
            × ((x : Text) → In x (c.labels_of d' j) ↔ In x (c.labels_of d j)))

  phases-IsFiled :
      (s : SubmitIssue) (id : ℤ) (d d1 d2 d3 : D)
      → db.create_issue s.title (some (s.body ++ answer_instruction_footer)) (codes "high") d
        ≡ (ok id, d1)
      → db.transaction (add_labels db id (inbound_labels s)) d1 ≡ (ok tt, d2)
      → attach db materialize id s.attachments d2 ≡ (ok tt, d3)
      → IsFiled s id d d3
  unfolding IsFiled filed IsNoted
  phases-IsFiled s id d d1 d2 d3 made labelled noted =
      let (none_before, no_labels, no_comments) = law.create_fresh _ _ _ d d1 id made in
      let labels = law.commits (add_labels db id (inbound_labels s)) d1 d2 labelled in
      let kept = add_labels-keeps db c law id (inbound_labels s) d1 d2 labels in
      let at_end = attach-IsNoted db c law materialize id s.attachments d2 d3 noted in
      (
        none_before,
        ground (
          arith,
          law.create_issue_of _ _ _ d d1 id made id,
          int_eq_iff id id,
          kept id,
          at_end id,
        ),
        (λ x. ground (
          arith,
          law.create_keeps _ _ _ d d1 id made id,
          no_labels,
          add_labels-In db c law id (inbound_labels s) d1 d2 labels id x,
          at_end id,
        )),
        λ j other. (
          ground
              (arith, law.create_issue_of _ _ _ d d1 id made j, int_eq_iff id j, kept j, at_end j),
          ground (arith, law.create_keeps _ _ _ d d1 id made j, kept j, at_end j),
          λ x. ground (
            arith,
            law.create_keeps _ _ _ d d1 id made j,
            add_labels-In db c law id (inbound_labels s) d1 d2 labels j x,
            at_end j,
          ),
        ),
      )

  create_inbound-IsFiled :
      (s : SubmitIssue) (d d' : D) (id : ℤ)
      → create_inbound db materialize s d ≡ (ok id, d')
      → IsFiled s id d d'
  unfolding create_inbound IsFiled filed
  create_inbound-IsFiled s d d' id h =
      let create : Action D Text ℤ =
        map_error (λ e. codes "creating local issue: " ++ e)
          (db.create_issue s.title (some (s.body ++ answer_instruction_footer)) (codes "high")) in
      let (i, d1, made, rest) = bind_ok create _ d d' id h in
      let (u, d2, labelled, rest2) =
        bind_ok
          (map_error (λ e. codes "applying labels: " ++ e)
            (db.transaction (add_labels db i (inbound_labels s))))
          _ d1 d' id rest in
      let (v, d3, noted, done) = bind_ok (attach db materialize i s.attachments) _ d2 d' id rest2 in
      let same : i ≡ id = ground arith in
      let end : d3 ≡ d' = ground arith in
      phases-IsFiled s id d d1 d2 d'
        (ground (
          arith,
          map_error_ok _
              (db.create_issue s.title (some (s.body ++ answer_instruction_footer)) (codes "high"))
              d d1 i made,
        ))
        (ground (
          arith,
          map_error_ok _ (db.transaction (add_labels db i (inbound_labels s))) d1 d2 tt labelled,
        ))
        (ground arith)

  -- Over a lawful database: a submit that succeeds, and whose reference no issue carried, files
  -- one new issue, with the title, the body and its footer, open, and with the inbound labels
  -- and no others; other issues keep their contents, comments and labels.
  pub submit_files_issue :
      (s : SubmitIssue) (d d' : D) (id : ℤ)
      → find_issue_with_label db (ref_label s.source_uuid) d ≡ ok none
      → handle_submit db materialize s d ≡ (ok id, d')
      → IsFiled s id d d'
  unfolding handle_submit
  submit_files_issue s d d' id unseen h = create_inbound-IsFiled s d d' id (ground arith)

  unseen-IsKnown :
      (s : SubmitIssue) (d d' : D) (id k : ℤ)
      → IsFiled s id d d'
      → (id ≡ k → ⊥)
      → IsKnown db c law (ref_label s.source_uuid) d' k
      → IsKnown db c law (ref_label s.source_uuid) d k
  unfolding IsFiled IsKnown
  unseen-IsKnown s d d' id k (new, made, labels, others) other (i, at, which, l) =
      let (same, comments, kept) = others k other in (i, sym same ∙ at, which, (kept _).0 l)

  filed-IsKnown :
      (s : SubmitIssue) (d d' : D) (id : ℤ)
      → IsFiled s id d d'
      → IsKnown db c law (ref_label s.source_uuid) d' id
  unfolding IsFiled filed IsKnown own_labels
  filed-IsKnown s d d' id (new, made, labels, others) = (
    filed id s,
    made,
    inl refl,
    (labels _).1 (((inbound_labels_lem s).0 _).1 (inl (inr (inr (inr (inr (inl refl))))))),
  )

  found_again :
      (s : SubmitIssue) (d d' : D) (id : ℤ) (found : Option ℤ)
      → IsFiled s id d d'
      → find_issue_with_label db (ref_label s.source_uuid) d ≡ ok none
      → find_issue_with_label db (ref_label s.source_uuid) d' ≡ ok found
      → found ≡ some id
  found_again s d d' id none made before after = absurd (
      (find_issue_lem db c law (ref_label s.source_uuid) d' none after).1 refl id
        (filed-IsKnown s d d' id made))
  found_again s d d' id (some k) made before after = elim (Bool-cases (id == k)) [
    | inl e ↦ ap some (sym ((int_eq_iff id k).0 e))
    | inr e ↦ absurd (
        (find_issue_lem db c law (ref_label s.source_uuid) d none before).1 refl k (
          unseen-IsKnown s d d' id k made (λ q. false≢true (sym e ∙ (int_eq_iff id k).1 q))
            ((find_issue_lem db c law (ref_label s.source_uuid) d' (some k) after).0 k refl)))
  ]

  failed-submit :
      (s : SubmitIssue) (d d' : D) (id : ℤ) (e : Text)
      → find_issue_with_label db (ref_label s.source_uuid) d ≡ err e
      → handle_submit db materialize s d ≡ (ok id, d')
      → ⊥
  unfolding handle_submit
  failed-submit s d d' id e he h = ground arith

  submit_known :
      (s : SubmitIssue) (d : D) (id : ℤ)
      → find_issue_with_label db (ref_label s.source_uuid) d ≡ ok (some id)
      → handle_submit db materialize s d ≡ (ok id, d)
  unfolding handle_submit
  submit_known s d id e = ground arith

  -- Over a lawful database: once an issue was submitted, a submit with the same reference,
  -- whatever else differs, answers with the number of the first and changes nothing, if the
  -- lookup can read the database.
  pub submit_again :
      (s s' : SubmitIssue) (d d' : D) (id : ℤ) (found : Option ℤ)
      → s'.source_uuid ≡ s.source_uuid
      → handle_submit db materialize s d ≡ (ok id, d')
      → find_issue_with_label db (ref_label s.source_uuid) d' ≡ ok found
      → handle_submit db materialize s' d' ≡ (ok id, d')
  submit_again s s' d d' id found same h look =
      elim (Result-cases (find_issue_with_label db (ref_label s.source_uuid) d)) [
        | inr (e, he) ↦ absurd (failed-submit s d d' id e he h)
        | inl (some k, he) ↦
            let first = submit_known s d k he in
            submit_known s' d' id
              (ap (λ u. find_issue_with_label db (ref_label u) d') same ∙ ground arith)
        | inl (none, he) ↦ submit_known s' d' id (
            ap (λ u. find_issue_with_label db (ref_label u) d') same
            ∙ look
            ∙ ap ok (found_again s d d' id found (submit_files_issue s d d' id he h) he look))
      ]
