-- ===== src/Tests/Memory.antt =====
-- A database in memory that is lawful in the sense of Crosslink: so that what is assumed of
-- crosslink can hold.
use crossbridge.Prelude.{
  ℕ, suc, Bool, not, ◌&&◌, Option, none, some, List, [], ◌∷◌, ◌++◌, ◌≡◌, ◌⊎◌, ◌↔◌, refl, inl, inr,
  arith, ap, subst, In, In-filter, filter, is_empty, if◌then◌else◌, ◌==◌, Bool-cases, Option-cases,
  Result, ok, err, contains, contains_iff, In-append_cases, In-append_left, In-append_right,
}
use crossbridge.Prelude.Text.{Text, codes, text_has_eq, text_eq_iff}
use crossbridge.Prelude.Action.{Action}
use crossbridge.Prelude.HashMap
use crossbridge.Prelude.HashMap.{HashMap}
use crossbridge.Prelude.HashMap.Laws.{get-insert, In-keys_of_get}
use crossbridge.Prelude.Decimal.{ℤ, pos, int_has_eq, int_eq_iff}
use crossbridge.Crosslink.{Database, Contents, IsLawful, Issue, Comment, open_status, closed_status}

pub record Row : Type 0 where
  pub title : Text
  pub description : Option Text
  pub status : Text

pub record Memory : Type 0 where
  pub rows : HashMap ℤ Row
  pub labels : ℤ → List Text
  pub comments : ℤ → List Comment
  pub next : ℕ

unfoldable pub issue_of_row : ℤ → Option Row → Option Issue
issue_of_row id none = none
issue_of_row id (some r) =
    some (record { id = id; title = r.title; description = r.description; status = r.status })

unfoldable pub issue_at : Memory → ℤ → Option Issue
issue_at m id = issue_of_row id (HashMap.get id m.rows)

unfoldable pub is_free : Memory → ℤ → Bool
is_free m id =
    not (HashMap.contains_key id m.rows) && (is_empty (m.labels id) && is_empty (m.comments id))

unfoldable pub create : Text → Option Text → Text → Action Memory Text ℤ
create t b p m =
    let id = pos m.next in
    if is_free m id
    then (
      ok id,
      record m {
        rows =
            HashMap.insert id (record { title = t; description = b; status = open_status }) m.rows;
        next = suc m.next;
      },
    )
    else (err (codes "no free number"), m)

unfoldable pub close : ℤ → Action Memory Text Unit
close id m = elim (HashMap.get id m.rows) [
  | none ↦ (err (codes "no such issue"), m)
  | some r ↦
      (ok tt, record m { rows = HashMap.insert id (record r { status = closed_status }) m.rows })
]

unfoldable pub label : ℤ → Text → Action Memory Text Unit
label id l m =
    (ok tt, record m { labels = λ j. if id == j then m.labels j ++ l ∷ [] else m.labels j })

unfoldable pub unlabel : ℤ → Text → Action Memory Text Unit
unlabel id l m = (
  ok tt,
  record m {
    labels = λ j. if id == j then filter (λ x. not (x == l)) (m.labels j) else m.labels j;
  },
)

unfoldable pub comment : ℤ → Text → Text → Action Memory Text Unit
comment id text kind m = (
  ok tt,
  record m {
    comments = λ j.
        if id == j
        then m.comments j ++ record { content = text; kind = kind } ∷ []
        else m.comments j;
  },
)

unfoldable pub commit : Action Memory Text Unit → Action Memory Text Unit
commit act m = let (r, m') = act m in elim r [ ok u ↦ (ok tt, m') | err e ↦ (err e, m) ]

unfoldable pub matches : Text → Text → Memory → Issue → Bool
matches status l m i = (i.status == status) && contains (m.labels i.id) l

unfoldable pub select : Text → Text → Memory → List ℤ → List Issue
select status l m [] = []
select status l m (k ∷ ks) =
    let rest = select status l m ks in
    elim (issue_at m k) [ none ↦ rest | some i ↦ if matches status l m i then i ∷ rest else rest ]

unfoldable pub list : Option Text → Option Text → Memory → Result Text (List Issue)
list (some status) (some l) m = ok (select status l m (HashMap.keys m.rows))
list (some status) none m = err (codes "not asked for")
list none l m = err (codes "not asked for")

unfoldable pub memory : Database Memory
memory = record {
  create_issue = create;
  close_issue = close;
  add_label = label;
  remove_label = unlabel;
  add_comment = comment;
  transaction = commit;
  get_issue = λ id m. ok (issue_at m id);
  get_issue_uuid_by_id = λ id m. ok (codes "5f");
  get_labels = λ id m. ok (m.labels id);
  get_comments = λ id m. ok (m.comments id);
  list_issues = list;
}

unfoldable pub contents : Contents Memory
contents = record { issue_of = issue_at; labels_of = λ m. m.labels; comments_of = λ m. m.comments }

module _ (t : Text) (b : Option Text) (p : Text) (d d' : Memory) (id : ℤ)
    (h : create t b p d ≡ (ok id, d')) where
  create_fresh : (issue_at d id ≡ none) × (d.labels id ≡ []) × (d.comments id ≡ [])
  unfolding create is_free issue_at issue_of_row HashMap.contains_key
  create_fresh = elim (Bool-cases (is_free d (pos d.next))) [
    | inr e ↦ absurd (ground arith)
    | inl e ↦ ground (arith, Option-cases (HashMap.get id d.rows))
  ]

  create_issue_of :
      (j : ℤ)
      → issue_at d' j ≡ (
          if id == j
          then some (record { id = id; title = t; description = b; status = open_status })
          else issue_at d j)
  unfolding create issue_at issue_of_row
  create_issue_of j = ground (
    arith,
    int_eq_iff id j,
    get-insert (pos d.next) j (record { title = t; description = b; status = open_status }) d.rows,
  )

  create_keeps : (j : ℤ) → (d'.labels j ≡ d.labels j) × (d'.comments j ≡ d.comments j)
  unfolding create
  create_keeps j = ground arith

label_lem :
    (id : ℤ) (l : Text) (d : Memory) (j : ℤ) (x : Text)
    → In x ((label id l d).1.labels j) ↔ (In x (d.labels j) ⊎ ((id ≡ j) × (x ≡ l)))
unfolding label
label_lem id l d j x = ground (
  arith,
  int_eq_iff id j,
  In-append_left x (d.labels j) (l ∷ []),
  In-append_right x (d.labels j) (l ∷ []),
  In-append_cases x (d.labels j) (l ∷ []),
)

unlabel_lem :
    (id : ℤ) (l : Text) (d : Memory) (j : ℤ) (x : Text)
    → In x ((unlabel id l d).1.labels j) ↔ (In x (d.labels j) × ((id ≡ j) × (x ≡ l) → ⊥))
unfolding unlabel
unlabel_lem id l d j x =
    ground (arith, int_eq_iff id j, text_eq_iff x l, In-filter (λ y. not (y == l)) x (d.labels j))

close_lem :
    (id : ℤ) (d d' : Memory) (i : Issue)
    → close id d ≡ (ok tt, d')
    → issue_at d id ≡ some i
    → issue_at d' id ≡ some (record i { status = closed_status })
unfolding close issue_at issue_of_row
close_lem id d d' i h at = elim (Option-cases (HashMap.get id d.rows)) [
  | inl e ↦ absurd (ground arith)
  | inr (r, e) ↦
      ground
        (arith, get-insert id id (record r { status = closed_status }) d.rows, int_eq_iff id id)
]

close_keeps :
    (id : ℤ) (d d' : Memory)
    → close id d ≡ (ok tt, d')
    → (j : ℤ) → (d'.labels j ≡ d.labels j) × (d'.comments j ≡ d.comments j)
unfolding close
close_keeps id d d' h j = ground arith

create_fails :
    (t : Text) (b : Option Text) (p e : Text) (d d' : Memory)
    → create t b p d ≡ (err e, d')
    → d' ≡ d
unfolding create
create_fails t b p e d d' h = ground arith

commits_lem :
    (m : Action Memory Text Unit) (d d' : Memory) → commit m d ≡ (ok tt, d') → m d ≡ (ok tt, d')
unfolding commit
commits_lem m d d' h = from (m d) refl h
  where
    from :
        (p : Result Text Unit × Memory)
        → m d ≡ p
        → commit (λ u. p) d ≡ (ok tt, d')
        → m d ≡ (ok tt, d')
    from (ok u, t) e k = ground arith
    from (err x, t) e k = absurd (ground arith)

rolls_back_lem :
    (m : Action Memory Text Unit) (e : Text) (d d' : Memory) → commit m d ≡ (err e, d') → d' ≡ d
unfolding commit
rolls_back_lem m e d d' h = from (m d) h
  where
    from : (p : Result Text Unit × Memory) → commit (λ u. p) d ≡ (err e, d') → d' ≡ d
    from (ok u, t) k = absurd (ground arith)
    from (err x, t) k = ground arith

issue_at-id : (d : Memory) (id : ℤ) (i : Issue) → issue_at d id ≡ some i → i.id ≡ id
unfolding issue_at issue_of_row
issue_at-id d id i h = ground (arith, Option-cases (HashMap.get id d.rows))

select_sound :
    (st l : Text) (d : Memory) (ks : List ℤ) (i : Issue)
    → In i (select st l d ks)
    → (issue_at d i.id ≡ some i) × (i.status ≡ st) × In l (d.labels i.id)
unfolding select matches
select_sound st l d [] i h = absurd h
select_sound st l d (k ∷ ks) i h = elim (Option-cases (issue_at d k)) [
  | inl e ↦ select_sound st l d ks i (ground arith)
  | inr (j, e) ↦ elim (Bool-cases (matches st l d j)) [
    | inr f ↦ select_sound st l d ks i (ground arith)
    | inl f ↦ ground (
      arith,
      issue_at-id d k j e,
      text_eq_iff j.status st,
      contains_iff l (d.labels j.id),
      select_sound st l d ks i,
    )
  ]
]

select_complete :
    (st l : Text) (d : Memory) (ks : List ℤ) (id : ℤ) (i : Issue)
    → issue_at d id ≡ some i
    → i.status ≡ st
    → In l (d.labels id)
    → In id ks
    → In i (select st l d ks)
unfolding select matches
select_complete st l d [] id i at s k m = absurd m
select_complete st l d (j ∷ ks) id i at s k (inr m) =
    ground (arith, Option-cases (issue_at d j), select_complete st l d ks id i at s k m)
select_complete st l d (j ∷ ks) id i at s k (inl e) =
    ground (arith, issue_at-id d id i at, text_eq_iff i.status st, contains_iff l (d.labels id))

In-rows : (d : Memory) (id : ℤ) (i : Issue) → issue_at d id ≡ some i → In id (HashMap.keys d.rows)
unfolding issue_at issue_of_row
In-rows d id i h = elim (Option-cases (HashMap.get id d.rows)) [
  | inl e ↦ absurd (ground arith)
  | inr (r, e) ↦ In-keys_of_get id r d.rows e
]

-- The issues and one other thing are those of before if the rows and that thing are.
kept :
    {A : Type 0} (f : Memory → A) (d m d' : Memory) (j : ℤ)
    → m ≡ d'
    → m.rows ≡ d.rows
    → f m ≡ f d
    → (issue_at d' j ≡ issue_at d j) × (f d' ≡ f d)
unfolding issue_at
kept f d m d' j same rows one =
    subst (λ n. (issue_at n j ≡ issue_at d j) × (f n ≡ f d)) same
      (ap (λ (r : HashMap ℤ Row). issue_of_row j (HashMap.get j r)) rows, one)

pub memory-IsLawful : IsLawful memory contents
unfolding memory contents label unlabel comment list
memory-IsLawful = record {
  create_fresh = λ t b p d d' id h. create_fresh t b p d d' id h;
  create_issue_of = λ t b p d d' id h j. create_issue_of t b p d d' id h j;
  create_keeps = λ t b p d d' id h j. create_keeps t b p d d' id h j;
  add_label_lem = λ id l d d' h j x. ground (arith, label_lem id l d j x);
  add_label_keeps = λ id l d d' h j.
      kept (λ n. n.comments j) d (label id l d).1 d' j
        (ap (λ (q : Result Text Unit × Memory). q.1) h) refl refl;
  remove_label_lem = λ id l d d' h j x. ground (arith, unlabel_lem id l d j x);
  remove_label_keeps = λ id l d d' h j.
      kept (λ n. n.comments j) d (unlabel id l d).1 d' j
        (ap (λ (q : Result Text Unit × Memory). q.1) h) refl refl;
  add_comment_lem = λ id t k d d' h j. ground arith;
  add_comment_keeps = λ id t k d d' h j.
      kept (λ n. n.labels j) d (comment id t k d).1 d' j
        (ap (λ (q : Result Text Unit × Memory). q.1) h) refl refl;
  close_issue_lem = λ id d d' i h at. close_lem id d d' i h at;
  close_keeps = λ id d d' h j. close_keeps id d d' h j;
  create_fails = λ t b p e d d' h. create_fails t b p e d d' h;
  comment_fails = λ id t k e d d' h. absurd (ground arith);
  commits = λ m d d' h. commits_lem m d d' h;
  rolls_back = λ m e d d' h. rolls_back_lem m e d d' h;
  get_issue_lem = λ id d o h. ground arith;
  get_labels_lem = λ id d ls h. ground arith;
  get_comments_lem = λ id d cs h. ground arith;
  list_sound = λ st l d is i h k. select_sound st l d (HashMap.keys d.rows) i (ground arith);
  list_complete = λ st l d is id i h at s k. (
    i,
    ground (arith, select_complete st l d (HashMap.keys d.rows) id i at s k (In-rows d id i at)),
    issue_at-id d id i at,
  );
}
