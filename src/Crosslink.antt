-- ===== src/Crosslink.antt =====
-- `crosslink::db::Database`, which the programs call and do not implement: an interface.
-- `IsLawful` is what they rely on: each call that succeeds does what its name says to what the
-- readers return, a call that fails changes nothing, and a transaction that fails is rolled back.
use crossbridge.Prelude.{
  Option, none, some, List, [], ◌∷◌, ◌++◌, ◌≡◌, ◌⊎◌, ◌↔◌, if◌then◌else◌, ◌==◌, Result, ok, err, In,
}
use crossbridge.Prelude.Text.{Text, codes}
use crossbridge.Prelude.Action.{Action}
use crossbridge.Prelude.Decimal.{ℤ, int_has_eq}

pub record Issue : Type 0 where
  pub id : ℤ
  pub title : Text
  pub description : Option Text
  pub status : Text

pub record Comment : Type 0 where
  pub content : Text
  pub kind : Text

-- An error is its text. The third argument of `list_issues` is always `None`.
pub record Database (D : Type 0) : Type 0 where
  pub create_issue : Text → Option Text → Text → Action D Text ℤ
  pub close_issue : ℤ → Action D Text Unit
  pub add_label : ℤ → Text → Action D Text Unit
  pub remove_label : ℤ → Text → Action D Text Unit
  pub add_comment : ℤ → Text → Text → Action D Text Unit
  pub transaction : Action D Text Unit → Action D Text Unit
  pub get_issue : ℤ → D → Result Text (Option Issue)
  pub get_issue_uuid_by_id : ℤ → D → Result Text Text
  pub get_labels : ℤ → D → Result Text (List Text)
  pub get_comments : ℤ → D → Result Text (List Comment)
  pub list_issues : Option Text → Option Text → D → Result Text (List Issue)

abbrev pub open_status : Text
open_status = codes "open"

abbrev pub closed_status : Text
closed_status = codes "closed"

-- What a database holds, apart from what reading it may come to.
pub record Contents (D : Type 0) : Type 0 where
  pub issue_of : D → ℤ → Option Issue
  pub labels_of : D → ℤ → List Text
  pub comments_of : D → ℤ → List Comment

pub record IsLawful {D : Type 0} (db : Database D) (c : Contents D) : Type 0 where
  pub create_fresh :
      (t : Text) (b : Option Text) (p : Text) (d d' : D) (id : ℤ)
      → db.create_issue t b p d ≡ (ok id, d')
      → (c.issue_of d id ≡ none) × (c.labels_of d id ≡ []) × (c.comments_of d id ≡ [])
  pub create_issue_of :
      (t : Text) (b : Option Text) (p : Text) (d d' : D) (id : ℤ)
      → db.create_issue t b p d ≡ (ok id, d')
      → (j : ℤ)
      → c.issue_of d' j ≡ (
          if id == j
          then some (record { id = id; title = t; description = b; status = open_status })
          else c.issue_of d j)
  pub create_keeps :
      (t : Text) (b : Option Text) (p : Text) (d d' : D) (id : ℤ)
      → db.create_issue t b p d ≡ (ok id, d')
      → (j : ℤ) → (c.labels_of d' j ≡ c.labels_of d j) × (c.comments_of d' j ≡ c.comments_of d j)
  pub add_label_lem :
      (id : ℤ) (l : Text) (d d' : D)
      → db.add_label id l d ≡ (ok tt, d')
      → (j : ℤ) (x : Text)
      → In x (c.labels_of d' j) ↔ (In x (c.labels_of d j) ⊎ ((id ≡ j) × (x ≡ l)))
  pub add_label_keeps :
      (id : ℤ) (l : Text) (d d' : D)
      → db.add_label id l d ≡ (ok tt, d')
      → (j : ℤ) → (c.issue_of d' j ≡ c.issue_of d j) × (c.comments_of d' j ≡ c.comments_of d j)
  pub remove_label_lem :
      (id : ℤ) (l : Text) (d d' : D)
      → db.remove_label id l d ≡ (ok tt, d')
      → (j : ℤ) (x : Text)
      → In x (c.labels_of d' j) ↔ (In x (c.labels_of d j) × ((id ≡ j) × (x ≡ l) → ⊥))
  pub remove_label_keeps :
      (id : ℤ) (l : Text) (d d' : D)
      → db.remove_label id l d ≡ (ok tt, d')
      → (j : ℤ) → (c.issue_of d' j ≡ c.issue_of d j) × (c.comments_of d' j ≡ c.comments_of d j)
  pub add_comment_lem :
      (id : ℤ) (text kind : Text) (d d' : D)
      → db.add_comment id text kind d ≡ (ok tt, d')
      → (j : ℤ)
      → c.comments_of d' j ≡ (
          if id == j
          then c.comments_of d j ++ record { content = text; kind = kind } ∷ []
          else c.comments_of d j)
  pub add_comment_keeps :
      (id : ℤ) (text kind : Text) (d d' : D)
      → db.add_comment id text kind d ≡ (ok tt, d')
      → (j : ℤ) → (c.issue_of d' j ≡ c.issue_of d j) × (c.labels_of d' j ≡ c.labels_of d j)
  pub close_issue_lem :
      (id : ℤ) (d d' : D) (i : Issue)
      → db.close_issue id d ≡ (ok tt, d')
      → c.issue_of d id ≡ some i
      → c.issue_of d' id ≡ some (record i { status = closed_status })
  pub close_keeps :
      (id : ℤ) (d d' : D)
      → db.close_issue id d ≡ (ok tt, d')
      → (j : ℤ) → (c.labels_of d' j ≡ c.labels_of d j) × (c.comments_of d' j ≡ c.comments_of d j)
  pub create_fails :
      (t : Text) (b : Option Text) (p e : Text) (d d' : D)
      → db.create_issue t b p d ≡ (err e, d')
      → d' ≡ d
  pub comment_fails :
      (id : ℤ) (text kind e : Text) (d d' : D)
      → db.add_comment id text kind d ≡ (err e, d')
      → d' ≡ d
  pub commits :
      (m : Action D Text Unit) (d d' : D) → db.transaction m d ≡ (ok tt, d') → m d ≡ (ok tt, d')
  pub rolls_back :
      (m : Action D Text Unit) (e : Text) (d d' : D) → db.transaction m d ≡ (err e, d') → d' ≡ d
  pub get_issue_lem :
      (id : ℤ) (d : D) (o : Option Issue) → db.get_issue id d ≡ ok o → c.issue_of d id ≡ o
  pub get_labels_lem :
      (id : ℤ) (d : D) (ls : List Text) → db.get_labels id d ≡ ok ls → c.labels_of d id ≡ ls
  pub get_comments_lem :
      (id : ℤ) (d : D) (cs : List Comment) → db.get_comments id d ≡ ok cs → c.comments_of d id ≡ cs
  pub list_sound :
      (status label : Text) (d : D) (is : List Issue) (i : Issue)
      → db.list_issues (some status) (some label) d ≡ ok is
      → In i is
      → (c.issue_of d i.id ≡ some i) × (i.status ≡ status) × In label (c.labels_of d i.id)
  pub list_complete :
      (status label : Text) (d : D) (is : List Issue) (id : ℤ) (i : Issue)
      → db.list_issues (some status) (some label) d ≡ ok is
      → c.issue_of d id ≡ some i
      → i.status ≡ status
      → In label (c.labels_of d id)
      → (j : Issue) × In j is × (j.id ≡ id)
