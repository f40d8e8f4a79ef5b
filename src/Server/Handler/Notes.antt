-- ===== src/Server/Handler/Notes.antt =====
-- crossbridge-server/src/handler.rs, handle_submit: the note on the attachments.
use crossbridge.Prelude.{
  List, [], ◌∷◌, ◌++◌, ◌≡◌, inl, inr, refl, sym, arith, Result, ok, err, Result-cases,
}
use crossbridge.Prelude.Text.{Text, codes, text_has_eq}
use crossbridge.Prelude.Decimal.{ℤ, int_has_eq, int_eq_iff}
use crossbridge.Protocol.{Attachment}
use crossbridge.Crosslink.{Database, Contents, IsLawful}
use crossbridge.Server.Attachment.{MaterializedAttachment, format_comment}
use crossbridge.Server.Handler.{add_note, attach}

module _ {D : Type 0} (db : Database D) (c : Contents D) (law : IsLawful db c)
    (materialize : List Attachment → Result Text MaterializedAttachment) where
  -- The issues and labels are those of before, and the comments of all issues but one.
  unfoldable pub IsNoted : ℤ → D → D → Type 0
  IsNoted id d d' =
      (j : ℤ)
      → (c.issue_of d' j ≡ c.issue_of d j)
        × (c.labels_of d' j ≡ c.labels_of d j)
        × ((id ≡ j → ⊥) → c.comments_of d' j ≡ c.comments_of d j)

  add_note-IsNoted :
      (id : ℤ) (text : Text) (d d' : D) → add_note db id text d ≡ (ok tt, d') → IsNoted id d d'
  unfolding IsNoted add_note
  add_note-IsNoted id text d d' h j =
      from (db.add_comment id text (codes "note") d) refl (ground arith)
    where
      from :
          (p : Result Text Unit × D)
          → db.add_comment id text (codes "note") d ≡ p
          → p.1 ≡ d'
          → (c.issue_of d' j ≡ c.issue_of d j)
            × (c.labels_of d' j ≡ c.labels_of d j)
            × ((id ≡ j → ⊥) → c.comments_of d' j ≡ c.comments_of d j)
      from (ok u, t) e k = ground (
        arith,
        law.add_comment_keeps id text (codes "note") d t e j,
        law.add_comment_lem id text (codes "note") d t e j,
        int_eq_iff id j,
      )
      from (err x, t) e k = ground (arith, law.comment_fails id text (codes "note") x d t e)

  pub attach-IsNoted :
      (id : ℤ) (as' : List Attachment) (d d' : D)
      → attach db materialize id as' d ≡ (ok tt, d')
      → IsNoted id d d'
  unfolding attach IsNoted
  attach-IsNoted id [] d d' h =
      let same : d ≡ d' = ground arith in rw (sym same) (λ j. (refl, refl, λ n. refl))
  attach-IsNoted id (a ∷ as') d d' h = elim (Result-cases (materialize (a ∷ as'))) [
    | inl (rec, e) ↦ add_note-IsNoted id (format_comment rec) d d' (ground arith)
    | inr (x, e) ↦
        add_note-IsNoted id (codes "crossbridge: failed to materialize attachments: " ++ x) d d'
          (ground arith)
  ]
