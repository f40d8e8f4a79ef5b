-- ===== src/Client/Commands/Marks.antt =====
-- crossbridge-client/src/main.rs: what submit_cmd leaves in the local database, and that an answer
-- with the reference that it sent finds the issue again (crossbridge-server/src/handler.rs).
use crossbridge.Prelude.{
  true, Option, none, some, List, [], ◌∷◌, ◌++◌, ◌≡◌, ◌⊎◌, ◌↔◌, refl, inl, inr, arith, ap, ◌∙◌,
  subst, sym, In, Result, ok, map_err, map_err_ok, Bool-cases, false≢true, ◌==◌,
}
use crossbridge.Prelude.Text.{Text, codes}
use crossbridge.Prelude.Action.{bind_ok}
use crossbridge.Prelude.Decimal.{ℤ, display_int, int_eq_iff, int_has_eq}
use crossbridge.Prelude.FilePath.{FilePath}
use crossbridge.Prelude.FileSystem.{FileSystem, exists}
use crossbridge.Protocol.{ClientRequest, ServerResponse, done}
use crossbridge.Protocol.Roots.{Env}
use crossbridge.Crosslink.{Database, Contents, IsLawful, Issue, open_status}
use crossbridge.Server.Handler
use crossbridge.Server.Handler.{find_issue_with_label}
use crossbridge.Server.Handler.Find.{IsKnown, Carries, find_issue_lem}
use crossbridge.Client.Labels.{outbound, status_pending, ref_label}
use crossbridge.Client.Commands.{
  load_issue, require_peer, ask, mark_outbound, submission, number, submit_cmd, peer_socket,
}
use crossbridge.Client.Commands.Steps.{load_issue_ok, require_peer_ok, ask_ok}

-- What a submit that succeeds prints.
abbrev pub submitted_line : ℤ → Text → ℤ → Text
submitted_line id target remote =
    codes "submitted issue "
    ++ number id
    ++ codes " to '"
    ++ target
    ++ codes "' (remote id "
    ++ display_int remote
    ++ codes ")"

module _ {D : Type 0} (db : Database D) (c : Contents D) (law : IsLawful db c) (fs : FileSystem)
    (env : Env) (exchange : FilePath → Text → ClientRequest → Result Text ServerResponse) where
  mark_outbound-effect :
      (id : ℤ) (uuid : Text) (d d' : D)
      → mark_outbound db fs env exchange id uuid d ≡ (ok tt, d')
      → ((x : Text)
          → In x (c.labels_of d' id)
            ↔ (In x (c.labels_of d id) ⊎ In x (outbound ∷ status_pending ∷ ref_label uuid ∷ [])))
        × (c.issue_of d' id ≡ c.issue_of d id)
  unfolding mark_outbound
  mark_outbound-effect id uuid d d' h =
      let (u, d1, a, r1) = bind_ok (db.add_label id outbound) _ d d' tt h in
      let (v, d2, b, e) = bind_ok (db.add_label id status_pending) _ d1 d' tt r1 in
      (
        λ x. ground (
          arith,
          law.add_label_lem id outbound d d1 a id x,
          law.add_label_lem id status_pending d1 d2 b id x,
          law.add_label_lem id (ref_label uuid) d2 d' e id x,
        ),
        ground (
          arith,
          law.add_label_keeps id outbound d d1 a id,
          law.add_label_keeps id status_pending d1 d2 b id,
          law.add_label_keeps id (ref_label uuid) d2 d' e id,
        ),
      )

  -- The other issues keep their contents and their labels.
  mark_outbound-keeps :
      (id : ℤ) (uuid : Text) (d d' : D)
      → mark_outbound db fs env exchange id uuid d ≡ (ok tt, d')
      → (j : ℤ) → (id ≡ j → ⊥)
      → (c.issue_of d' j ≡ c.issue_of d j)
        × ((x : Text) → In x (c.labels_of d' j) → In x (c.labels_of d j))
  unfolding mark_outbound
  mark_outbound-keeps id uuid d d' h j apart =
      let (u, d1, a, r1) = bind_ok (db.add_label id outbound) _ d d' tt h in
      let (v, d2, b, e) = bind_ok (db.add_label id status_pending) _ d1 d' tt r1 in
      (
        ground (
          arith,
          law.add_label_keeps id outbound d d1 a j,
          law.add_label_keeps id status_pending d1 d2 b j,
          law.add_label_keeps id (ref_label uuid) d2 d' e j,
        ),
        λ x. ground (
          arith,
          law.add_label_lem id outbound d d1 a j x,
          law.add_label_lem id status_pending d1 d2 b j x,
          law.add_label_lem id (ref_label uuid) d2 d' e j x,
        ),
      )

  unfoldable pub IsSubmitted : Text → Text → Text → ℤ → D → D → Type 0
  IsSubmitted own target line id d d' =
      (i : Issue) × (uuid : Text) × (remote : ℤ) × (c.issue_of d id ≡ some i)
      × (db.get_issue_uuid_by_id i.id d ≡ ok uuid)
      × (exists (peer_socket env own target) fs ≡ true)
      × (exchange (peer_socket env own target) target
            (submission db fs env exchange own i uuid (c.labels_of d i.id))
          ≡ ok (done remote))
      × ((x : Text)
          → In x (c.labels_of d' i.id)
            ↔ (In x (c.labels_of d i.id) ⊎ In x (outbound ∷ status_pending ∷ ref_label uuid ∷ [])))
      × (c.issue_of d' i.id ≡ c.issue_of d i.id)
      × (line ≡ submitted_line id target remote)
      × ((j : ℤ)
          → (i.id ≡ j → ⊥)
          → (c.issue_of d' j ≡ c.issue_of d j)
            × ((x : Text) → In x (c.labels_of d' j) → In x (c.labels_of d j)))

  submit_phases :
      (own target line : Text) (id : ℤ) (i : Issue) (uuid : Text) (labels : List Text) (remote : ℤ)
      (d d' : D)
      → c.issue_of d id ≡ some i
      → db.get_issue_uuid_by_id i.id d ≡ ok uuid
      → db.get_labels i.id d ≡ ok labels
      → exists (peer_socket env own target) fs ≡ true
      → exchange
          (peer_socket env own target)
          target
          (submission db fs env exchange own i uuid labels)
        ≡ ok (done remote)
      → mark_outbound db fs env exchange i.id uuid d ≡ (ok tt, d')
      → line ≡ submitted_line id target remote
      → IsSubmitted own target line id d d'
  unfolding IsSubmitted
  submit_phases own target line id i uuid labels remote d d' at known read there asked marked said =
      let (marks, kept) = mark_outbound-effect i.id uuid d d' marked in
      (
        i,
        uuid,
        remote,
        at,
        known,
        there,
        ap
              (λ ls.
                exchange (peer_socket env own target) target
                  (submission db fs env exchange own i uuid ls))
              (law.get_labels_lem i.id d labels read)
            ∙ asked,
        marks,
        kept,
        said,
        mark_outbound-keeps i.id uuid d d' marked,
      )

  -- Over a lawful database: a submit that succeeds has sent the issue of that number, with its
  -- labels and its UUID, over the socket of the target, which exists, and was given a number for
  -- it; the issue keeps its contents and labels and has got xb:outbound, xb-status:pending and
  -- xb-ref with that UUID; and the number is printed.
  pub submit_cmd_effect :
      (own target line : Text) (id : ℤ) (d d' : D)
      → submit_cmd db fs env exchange own id target d ≡ (ok line, d')
      → IsSubmitted own target line id d d'
  unfolding submit_cmd
  submit_cmd_effect own target line id d d' h =
      let (i, d1, loaded, r1) = bind_ok (load_issue db fs env exchange id) _ d d' line h in
      let (same1, at) = load_issue_ok db c law fs env exchange id d d1 i loaded in
      let (uuid, d2, named, r2) =
        bind_ok
          (λ s. (
            map_err
                (λ e. codes "issue " ++ number id ++ codes " has no UUID in the local DB: " ++ e)
                (db.get_issue_uuid_by_id i.id s),
            s,
          ))
          _ d1 d' line r1 in
      let (labels, d3, read, r3) = bind_ok (λ s. (db.get_labels i.id s, s)) _ d2 d' line r2 in
      let (u, d4, there, r4) =
        bind_ok (require_peer db fs env exchange own target) _ d3 d' line r3 in
      let (remote, d5, asked, r5) =
        bind_ok
          (ask db fs env exchange own target (submission db fs env exchange own i uuid labels)) _ d4
          d' line r4 in
      let (v, d6, marked, r6) =
        bind_ok (mark_outbound db fs env exchange i.id uuid) _ d5 d' line r5 in
      let (there', same4) = require_peer_ok db c law fs env exchange own target d3 d4 there in
      let (asked', same5) =
        ask_ok db c law fs env exchange own target (submission db fs env exchange own i uuid labels)
          d4 d5 remote asked in
      let same2 : d1 ≡ d2 = ground arith in
      let same3 : d2 ≡ d3 = ground arith in
      let last : d6 ≡ d' = ground arith in
      let known : db.get_issue_uuid_by_id i.id d ≡ ok uuid =
        map_err_ok (λ e. codes "issue " ++ number id ++ codes " has no UUID in the local DB: " ++ e)
          (db.get_issue_uuid_by_id i.id d) (ground arith) in
      submit_phases own target line id i uuid labels remote d d' at known (ground arith) there'
        asked' (ground arith) (ground arith)

  -- What the lookup finds once the label is on one open issue, and on no other that it looks at.
  find_marked :
      (id : ℤ) (i : Issue) (uuid : Text) (d d' : D)
      → c.issue_of d' id ≡ some i
      → i.status ≡ open_status
      → In (ref_label uuid) (c.labels_of d' id)
      → ((j : ℤ)
          → (id ≡ j → ⊥)
          → (c.issue_of d' j ≡ c.issue_of d j)
            × ((x : Text) → In x (c.labels_of d' j) → In x (c.labels_of d j)))
      → ((k : ℤ) → IsKnown db c law (Handler.ref_label uuid) d k → k ≡ id)
      → (o : Option ℤ) → find_issue_with_label db (Handler.ref_label uuid) d' ≡ ok o
      → o ≡ some id
  unfolding IsKnown Carries ref_label
  find_marked id i uuid d d' at is_open marked others alone none look = absurd (
      (find_issue_lem db c law (Handler.ref_label uuid) d' none look).1 refl id
        (i, at, inl is_open, marked))
  find_marked id i uuid d d' at is_open marked others alone (some n) look =
      elim (Bool-cases (id == n)) [
        | inl e ↦ ap some (sym ((int_eq_iff id n).0 e))
        | inr e ↦
            let (j, there, which, l) =
              (find_issue_lem db c law (Handler.ref_label uuid) d' (some n) look).0 n refl in
            let (same, kept) = others n (λ q. false≢true (sym e ∙ (int_eq_iff id n).1 q)) in
            ap some (alone n (j, sym same ∙ there, which, kept _ l))
      ]

  -- Over a lawful database: a submit of an open issue, stored under its own number, that succeeds
  -- has sent the issue with its UUID and been accepted; where no other issue carried that UUID as
  -- its reference, the server's lookup for it, if it can read the database, finds from then on the
  -- issue that was submitted.
  pub submitted_is_found :
      (own target line uuid : Text) (id : ℤ) (d d' : D) (i : Issue)
      → submit_cmd db fs env exchange own id target d ≡ (ok line, d')
      → c.issue_of d id ≡ some i
      → i.id ≡ id
      → i.status ≡ open_status
      → db.get_issue_uuid_by_id id d ≡ ok uuid
      → ((k : ℤ) → IsKnown db c law (Handler.ref_label uuid) d k → k ≡ id)
      → (remote : ℤ) × (exchange
            (peer_socket env own target)
            target
            (submission db fs env exchange own i uuid (c.labels_of d id))
          ≡ ok (done remote))
        × ((o : Option ℤ)
            → find_issue_with_label db (Handler.ref_label uuid) d' ≡ ok o
            → o ≡ some id)
  unfolding IsSubmitted
  submitted_is_found own target line uuid id d d' i h at same is_open named alone =
      let (j, u, remote, at', known, there, sent, marks, kept, said, others) =
        submit_cmd_effect own target line id d d' h in
      let here : j ≡ i = ground arith in
      let number_of : j.id ≡ id = ap (λ (q : Issue). q.id) here ∙ same in
      let about : u ≡ uuid =
        ok_inj (db.get_issue_uuid_by_id id d)
          (ap (λ n. db.get_issue_uuid_by_id n d) (sym number_of) ∙ known) named in
      (
        remote,
        rw (sym here, sym about, sym number_of) sent,
        find_marked id i uuid d d'
            (subst (λ n. c.issue_of d' n ≡ c.issue_of d n) number_of kept ∙ at) is_open
            (subst (λ v. In (ref_label v) (c.labels_of d' id)) about
              (subst (λ n. In (ref_label u) (c.labels_of d' n)) number_of
                ((marks (ref_label u)).1 (inr (inr (inr (inl refl)))))))
            (λ k q. others k (λ e. q (sym number_of ∙ e))) alone,
      )
    where
      ok_inj : {a b : Text} (r : Result Text Text) → r ≡ ok a → r ≡ ok b → a ≡ b
      ok_inj r e e' = cc
