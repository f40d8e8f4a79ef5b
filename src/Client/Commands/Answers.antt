-- ===== src/Client/Commands/Answers.antt =====
-- crossbridge-client/src/main.rs, answer_cmd: what it sends, and what it leaves in the local database.
use crossbridge.Prelude.{
  true, some, List, [], ◌∷◌, ◌++◌, ◌≡◌, ◌⊎◌, ◌↔◌, sym, inl, inr, arith, ap, ◌∙◌, subst, In,
  contains_iff, Result, ok, Option-cases, Bool-cases,
}
use crossbridge.Prelude.Text.{Text, codes, strip_prefix, text_has_eq}
use crossbridge.Prelude.Text.Laws.{strip_prefix_sound}
use crossbridge.Prelude.Action.{bind_ok}
use crossbridge.Prelude.Decimal.{ℤ}
use crossbridge.Prelude.FilePath.{FilePath}
use crossbridge.Prelude.FileSystem.{FileSystem, exists}
use crossbridge.Protocol.{ClientRequest, answer, ServerResponse, done}
use crossbridge.Protocol.Roots.{Env}
use crossbridge.Crosslink.{Database, Contents, IsLawful, Issue, closed_status}
use crossbridge.Client.Labels.{
  inbound, status_answered, source_prefix, ref_prefix, find_prefixed, has,
}
use crossbridge.Client.Commands.{
  load_issue, require_peer, require_inbound, require_label, ask, answer_from, answer_cmd,
  results_of, peer_socket,
}
use crossbridge.Client.Commands.Steps.{load_issue_ok, require_peer_ok, ask_ok}

find_prefixed_sound :
    (labels : List Text) (prefix value : Text)
    → find_prefixed labels prefix ≡ some value
    → In (prefix ++ value) labels
unfolding find_prefixed
find_prefixed_sound [] prefix value h = absurd (cc)
find_prefixed_sound (l ∷ labels) prefix value h = elim (Option-cases (strip_prefix prefix l)) [
  | inl e ↦ inr (find_prefixed_sound labels prefix value (ground (arith, e)))
  | inr (v, e) ↦ inl (ground (arith, e, strip_prefix_sound prefix l {t = v} e))
]

module _ {D : Type 0} (db : Database D) (c : Contents D) (law : IsLawful db c) (fs : FileSystem)
    (env : Env) (exchange : FilePath → Text → ClientRequest → Result Text ServerResponse) where
  require_inbound_ok :
      (id : ℤ) (labels : List Text) (d d' : D)
      → require_inbound db fs env exchange id labels d ≡ (ok tt, d')
      → In inbound labels × (d ≡ d')
  unfolding require_inbound has
  require_inbound_ok id labels d d' h = elim (Bool-cases (has labels inbound)) [
    | inl e ↦ ((contains_iff inbound labels).0 e, ground (arith, e))
    | inr e ↦ absurd (ground (arith, e))
  ]

  require_label_ok :
      (id : ℤ) (labels : List Text) (prefix what value : Text) (d d' : D)
      → require_label db fs env exchange id labels prefix what d ≡ (ok value, d')
      → In (prefix ++ value) labels × (d ≡ d')
  unfolding require_label
  require_label_ok id labels prefix what value d d' h =
      elim (Option-cases (find_prefixed labels prefix)) [
        | inl e ↦ absurd (ground (arith, e))
        | inr (v, e) ↦
            (find_prefixed_sound labels prefix value (ground (arith, e)), ground (arith, e))
      ]

  -- What was sent to the peer of a slug, and what was changed once it had accepted.
  unfoldable pub IsDelivered : Text → Issue → Text → Text → D → D → Type 0
  IsDelivered own i slug uuid d d' =
      (remote : ℤ) × (exists (peer_socket env own slug) fs ≡ true)
      × (exchange (peer_socket env own slug) slug (
            answer (record {
              source_uuid = uuid;
              comments = results_of db fs env exchange (c.comments_of d i.id);
              attachments = [];
            }))
          ≡ ok (done remote))
      × ((x : Text)
          → In x (c.labels_of d' i.id) ↔ (In x (c.labels_of d i.id) ⊎ (x ≡ status_answered)))
      × ((j : Issue)
          → c.issue_of d i.id ≡ some j
          → c.issue_of d' i.id ≡ some (record j { status = closed_status }))

  answer_from_ok :
      (own line slug uuid : Text) (id : ℤ) (i : Issue) (d d' : D)
      → answer_from db fs env exchange own id i slug uuid d ≡ (ok line, d')
      → IsDelivered own i slug uuid d d'
  unfolding answer_from IsDelivered
  answer_from_ok own line slug uuid id i d d' h =
      let (cs, d1, read, r1) = bind_ok (λ s. (db.get_comments i.id s, s)) _ d d' line h in
      let (u, d2, there, r2) = bind_ok (require_peer db fs env exchange own slug) _ d1 d' line r1 in
      let q = answer (record {
        source_uuid = uuid;
        comments = results_of db fs env exchange cs;
        attachments = [];
      }) in
      let (remote, d3, asked, r3) = bind_ok (ask db fs env exchange own slug q) _ d2 d' line r2 in
      let (v, d4, marked, r4) = bind_ok (db.add_label i.id status_answered) _ d3 d' line r3 in
      let (w, d5, closes, r5) = bind_ok (db.close_issue i.id) _ d4 d' line r4 in
      let (there', same2) = require_peer_ok db c law fs env exchange own slug d1 d2 there in
      let (asked', same3) = ask_ok db c law fs env exchange own slug q d2 d3 remote asked in
      let start : d ≡ d3 = ground arith in
      let last : d5 ≡ d' = ground arith in
      let marked' : db.add_label i.id status_answered d ≡ (ok tt, d4) =
        subst (λ x. db.add_label i.id status_answered x ≡ (ok tt, d4)) (sym start) marked in
      let closes' : db.close_issue i.id d4 ≡ (ok tt, d') = ground arith in
      (
        remote,
        there',
        ap
              (λ x. exchange (peer_socket env own slug) slug (
                answer (record {
                  source_uuid = uuid;
                  comments = results_of db fs env exchange x;
                  attachments = [];
                })))
              (law.get_comments_lem i.id d cs (ground arith))
            ∙ asked',
        λ x. ground (
          arith,
          law.add_label_lem i.id status_answered d d4 marked' i.id x,
          law.close_keeps i.id d4 d' closes' i.id,
        ),
        λ j at.
            law.close_issue_lem i.id d4 d' j closes'
              ((law.add_label_keeps i.id status_answered d d4 marked' i.id).0 ∙ at),
      )

  unfoldable pub IsAnswered : Text → ℤ → D → D → Type 0
  IsAnswered own id d d' =
      (i : Issue) × (slug : Text) × (uuid : Text) × (c.issue_of d id ≡ some i)
      × In inbound (c.labels_of d i.id)
      × In (source_prefix ++ slug) (c.labels_of d i.id)
      × In (ref_prefix ++ uuid) (c.labels_of d i.id)
      × IsDelivered own i slug uuid d d'

  -- Over a lawful database: an answer that succeeds is for an inbound issue; it has sent the issue's
  -- result comments, with the UUID of an xb-ref label, over the socket of the peer of an xb-source
  -- label, which exists, and was given a number for it; the issue has got xb-status:answered and no
  -- other label, and is closed.
  pub answer_cmd_effect :
      (own line : Text) (id : ℤ) (d d' : D)
      → answer_cmd db fs env exchange own id d ≡ (ok line, d')
      → IsAnswered own id d d'
  unfolding answer_cmd IsAnswered
  answer_cmd_effect own line id d d' h =
      let (i, d1, loaded, r1) = bind_ok (load_issue db fs env exchange id) _ d d' line h in
      let (labels, d2, read, r2) = bind_ok (λ s. (db.get_labels i.id s, s)) _ d1 d' line r1 in
      let (u, d3, is_inbound, r3) =
        bind_ok (require_inbound db fs env exchange id labels) _ d2 d' line r2 in
      let (slug, d4, from, r4) =
        bind_ok (require_label db fs env exchange id labels source_prefix (codes "<slug>")) _ d3 d'
          line r3 in
      let (uuid, d5, to, r5) =
        bind_ok (require_label db fs env exchange id labels ref_prefix (codes "<uuid>")) _ d4 d'
          line r4 in
      let (same1, at) = load_issue_ok db c law fs env exchange id d d1 i loaded in
      let (marked, same3) = require_inbound_ok id labels d2 d3 is_inbound in
      let (source, same4) =
        require_label_ok id labels source_prefix (codes "<slug>") slug d3 d4 from in
      let (ref, same5) = require_label_ok id labels ref_prefix (codes "<uuid>") uuid d4 d5 to in
      let same2 : d1 ≡ d2 = ground arith in
      let whole : d ≡ d5 = ground arith in
      let labels_lem : c.labels_of d i.id ≡ labels =
        law.get_labels_lem i.id d labels (ground arith) in
      (
        i,
        slug,
        uuid,
        at,
        rw labels_lem marked,
        rw labels_lem source,
        rw labels_lem ref,
        answer_from_ok own line slug uuid id i d d' (
            subst (λ x. answer_from db fs env exchange own id i slug uuid x ≡ (ok line, d'))
              (sym whole) r5),
      )
