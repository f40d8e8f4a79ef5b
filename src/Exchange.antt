-- ===== src/Exchange.antt =====
-- Two instances that talk to each other: the client of one (crossbridge-client/src/main.rs) sends
-- its requests to the server of the other (crossbridge-server/src/handler.rs), which carries them
-- out on its own database.
pub mod Returns
pub mod Wire
use crossbridge.Prelude.{
  Option, none, some, List, [], ◌≡◌, refl, ap, sym, ◌∙◌, arith, Result, ok, err, Result-cases, true,
}
use crossbridge.Prelude.Text.{Text}
use crossbridge.Prelude.Decimal.{ℤ}
use crossbridge.Prelude.FilePath.{FilePath}
use crossbridge.Prelude.FileSystem.{FileSystem}
use crossbridge.Protocol.{Attachment, SubmitIssue, ClientRequest, submit, ServerResponse, done}
use crossbridge.Protocol.Roots.{Env}
use crossbridge.Crosslink.{Database, Contents, IsLawful, Issue}
use crossbridge.Server.Attachment.{MaterializedAttachment}
use crossbridge.Server.Handler
use crossbridge.Server.Handler.{find_issue_with_label, handle_submit, respond, dispatch}
use crossbridge.Server.Handler.Submit.{IsFiled, submit_files_issue, submit_again}
use crossbridge.Client.Commands.{peer_socket, submission, description_of, submit_cmd}
use crossbridge.Client.Commands.Marks.{IsSubmitted, submitted_line, submit_cmd_effect}

-- One container: its slug, its database, what its client reaches and what its server runs.
pub record Instance (D : Type 0) : Type 0 where
  pub slug : Text
  pub db : Database D
  pub fs : FileSystem
  pub env : Env
  pub exchange : FilePath → Text → ClientRequest → Result Text ServerResponse
  pub materialize : List Attachment → Result Text MaterializedAttachment

-- A request that the client of `x` sends to `y` is answered by what its server makes of it, on the
-- database `e`.
unfoldable pub Reaches : {D E : Type 0} → Instance D → Instance E → E → ClientRequest → Type 0
Reaches x y e q =
    x.exchange (peer_socket x.env x.slug y.slug) y.slug q
    ≡ ok (respond y.db (dispatch y.db y.materialize x.slug q e).0)

-- What a submit of an issue sends.
unfoldable pub sent_issue : Text → Issue → Text → List Text → SubmitIssue
sent_issue own i uuid labels = record {
  title = i.title;
  body = description_of i;
  labels = labels;
  source_slug = own;
  source_uuid = uuid;
  attachments = [];
}

pub respond_done :
    {E : Type 0} (db : Database E) (o : Result Text ℤ) (n : ℤ) → respond db o ≡ done n → o ≡ ok n
unfolding respond
respond_done db (ok m) n h = cc
respond_done db (err e) n h = absurd (cc)

module _ {D E : Type 0} (x : Instance D) (y : Instance E) (cx : Contents D) (cy : Contents E)
    (lawful_x : IsLawful x.db cx) (lawful_y : IsLawful y.db cy) where
  submission_lem :
      (i : Issue) (uuid : Text) (labels : List Text)
      → submission x.db x.fs x.env x.exchange x.slug i uuid labels
        ≡ submit (sent_issue x.slug i uuid labels)
  unfolding submission sent_issue
  submission_lem i uuid labels = refl

  carried_out :
      (s : SubmitIssue) (e : E) (n : ℤ)
      → Reaches x y e (submit s)
      → x.exchange (peer_socket x.env x.slug y.slug) y.slug (submit s) ≡ ok (done n)
      → (handle_submit y.db y.materialize s e).0 ≡ ok n
  unfolding Reaches dispatch
  carried_out s e n reaches sent =
      let back : ok (respond y.db (handle_submit y.db y.materialize s e).0) ≡ ok (done n) =
        sym reaches ∙ sent in
      respond_done y.db (handle_submit y.db y.materialize s e).0 n (cc)

  -- The number that a submit was given is the one of the target's server, and it is printed.
  sent_remote :
      (id : ℤ) (i : Issue) (uuid line : Text) (d d' : D) (e : E)
      → Reaches x y e (submit (sent_issue x.slug i uuid (cx.labels_of d i.id)))
      → cx.issue_of d id ≡ some i
      → x.db.get_issue_uuid_by_id i.id d ≡ ok uuid
      → submit_cmd x.db x.fs x.env x.exchange x.slug id y.slug d ≡ (ok line, d')
      → let s = sent_issue x.slug i uuid (cx.labels_of d i.id) in
        (n : ℤ) × ((handle_submit y.db y.materialize s e).0 ≡ ok n)
        × (line ≡ submitted_line id y.slug n)
  unfolding IsSubmitted
  sent_remote id i uuid line d d' e reaches at known h =
      let (j, u, n, at', known', there, sent, marks, kept, said, others) =
        submit_cmd_effect x.db cx lawful_x x.fs x.env x.exchange x.slug y.slug line id d d' h in
      let here : j ≡ i = ground arith in
      let same : u ≡ uuid = ground arith in
      let s = sent_issue x.slug i uuid (cx.labels_of d i.id) in
      let asked : submission x.db x.fs x.env x.exchange x.slug j u (cx.labels_of d j.id)
          ≡ submit s =
        rw (here, same) (submission_lem i uuid (cx.labels_of d i.id)) in
      (
        n,
        carried_out s e n reaches
            (ap (x.exchange (peer_socket x.env x.slug y.slug) y.slug) (sym asked) ∙ sent),
        said,
      )

  -- Between two lawful databases: where the server of the target carries out the request and has
  -- no issue with the reference yet, a submit that succeeds has filed one new issue there, under
  -- the number that it prints, with the title, the description and the labels of the submitted
  -- issue, from the submitter's slug, and with the submitted issue's UUID as its reference.
  pub submit_delivers :
      (id : ℤ) (i : Issue) (uuid line : Text) (d d' : D) (e : E)
      → Reaches x y e (submit (sent_issue x.slug i uuid (cx.labels_of d i.id)))
      → cx.issue_of d id ≡ some i
      → x.db.get_issue_uuid_by_id i.id d ≡ ok uuid
      → find_issue_with_label y.db (Handler.ref_label uuid) e ≡ ok none
      → submit_cmd x.db x.fs x.env x.exchange x.slug id y.slug d ≡ (ok line, d')
      → let s = sent_issue x.slug i uuid (cx.labels_of d i.id) in
        (n : ℤ) × (e' : E) × (line ≡ submitted_line id y.slug n)
        × (handle_submit y.db y.materialize s e ≡ (ok n, e'))
        × IsFiled y.db cy lawful_y y.materialize s n e e'
  unfolding sent_issue
  submit_delivers id i uuid line d d' e reaches at known unseen h =
      let s = sent_issue x.slug i uuid (cx.labels_of d i.id) in
      let (n, accepted, said) = sent_remote id i uuid line d d' e reaches at known h in
      let e' = (handle_submit y.db y.materialize s e).1 in
      let run : handle_submit y.db y.materialize s e ≡ (ok n, e') = ap (λ r. (r, e')) accepted in
      (n, e', said, run, submit_files_issue y.db cy lawful_y y.materialize s e e' n unseen run)

  -- Between two lawful databases: once the target has filed an issue for a submission, a submit of
  -- an issue with the same UUID that succeeds, whatever its title, text and labels are by then, prints
  -- the number of that issue and has changed nothing at the target, if the lookup there can read
  -- the database.
  pub resubmit_files_once :
      (id : ℤ) (i : Issue) (s : SubmitIssue) (line : Text) (n : ℤ) (d d' : D) (e e1 : E)
      (found : Option ℤ)
      → handle_submit y.db y.materialize s e ≡ (ok n, e1)
      → find_issue_with_label y.db (Handler.ref_label s.source_uuid) e1 ≡ ok found
      → cx.issue_of d id ≡ some i
      → x.db.get_issue_uuid_by_id i.id d ≡ ok s.source_uuid
      → Reaches x y e1 (submit (sent_issue x.slug i s.source_uuid (cx.labels_of d i.id)))
      → submit_cmd x.db x.fs x.env x.exchange x.slug id y.slug d ≡ (ok line, d')
      → (line ≡ submitted_line id y.slug n)
        × (dispatch y.db y.materialize x.slug
              (submit (sent_issue x.slug i s.source_uuid (cx.labels_of d i.id)))
              e1
            ≡ (ok n, e1))
  unfolding IsSubmitted dispatch
  resubmit_files_once id i s line n d d' e e1 found filed look at known reaches h =
      let q = sent_issue x.slug i s.source_uuid (cx.labels_of d i.id) in
      let again : handle_submit y.db y.materialize q e1 ≡ (ok n, e1) =
        submit_again y.db cy lawful_y y.materialize s q e e1 n found (unfold sent_issue in refl)
          filed look in
      let (remote, accepted, said) =
        sent_remote id i s.source_uuid line d d' e1 reaches at known h in
      let same : remote ≡ n = ground arith in (said ∙ ap (submitted_line id y.slug) same, again)
