-- ===== src/Client/Commands/Root.antt =====
-- crossbridge-client/src/main.rs, repo_root_from: the directory whose database a command opens.
use Prim.Native.Nat.{ℕ, zero, suc, ◌+◌, ◌<◌}
use crossbridge.Prelude.{
  true, false, none, some, List, [], ◌∷◌, ◌≡◌, ◌⊎◌, refl, inl, inr, sym, ap, ◌∙◌, subst, arith,
  length, Bool-cases, Option-cases, false≢true,
}
use crossbridge.Prelude.Text.{Text, codes}
use crossbridge.Prelude.FilePath.{FilePath, of_text, join, parent, drop_last}
use crossbridge.Prelude.FileSystem.{FileSystem, exists}
use crossbridge.Client.Commands.{root_above, repo_root_from}

-- A path, and the directories above it.
pub data Above : FilePath → FilePath → Type 0 where
  here : (p : FilePath) → Above p p
  up : (p m q : FilePath) → parent p ≡ some m → Above q m → Above q p

above_cases :
    {q p : FilePath} → Above q p → (q ≡ p) ⊎ ((m : FilePath) × (parent p ≡ some m) × Above q m)
above_cases (here p) = inl refl
above_cases (up p m q e a) = inr (m, e, a)

-- There is a database in it.
unfoldable pub HasDatabase : FileSystem → FilePath → Type 0
HasDatabase fs p =
    exists (join (join p (of_text (codes ".crosslink"))) (of_text (codes "issues.db"))) fs ≡ true

unfoldable pub IsRoot : FileSystem → FilePath → FilePath → FilePath → Type 0
IsRoot fs start cur r =
    (Above r cur × HasDatabase fs r × ((q : FilePath) → Above q cur → HasDatabase fs q → Above q r))
    ⊎ (((q : FilePath) → Above q cur → HasDatabase fs q → ⊥) × (r ≡ start))

length-drop_last : (ws vs : List Text) → drop_last ws ≡ some vs → length ws ≡ suc (length vs)
length-drop_last [] vs h = absurd (cc)
length-drop_last (w ∷ []) vs h = ground (arith)
length-drop_last (w ∷ v ∷ ws) vs h = elim (Option-cases (drop_last (v ∷ ws))) [
  | inl e ↦ absurd (ground (arith, e))
  | inr (r, e) ↦
      (let same : w ∷ r ≡ vs = ground (arith, e) in
        rw (sym same) (ap suc (length-drop_last (v ∷ ws) r e)))
]

length-parent :
    (p m : FilePath) → parent p ≡ some m → length p.components ≡ suc (length m.components)
unfolding parent
length-parent p m h = elim (Option-cases (drop_last p.components)) [
  | inl e ↦ absurd (ground (arith, e, h))
  | inr (cs, e) ↦
      let same : record { absolute = p.absolute; components = cs } ≡ m = ground (arith, e, h) in
      length-drop_last p.components cs e ∙ ap (λ (x : FilePath). suc (length x.components)) same
]

module _ (fs : FileSystem) where
  IsRoot-up :
      (start cur m r : FilePath)
      → parent cur ≡ some m
      → (HasDatabase fs cur → ⊥)
      → IsRoot fs start m r
      → IsRoot fs start cur r
  unfolding IsRoot
  IsRoot-up start cur m r e lacks h = elim h [
    | inl (above, has, nearest) ↦ inl (up cur m r e above, has, λ q a k. nearest q (below q a k) k)
    | inr (nowhere, same) ↦ inr (λ q a k. nowhere q (below q a k) k, same)
  ]
    where
      below : (q : FilePath) → Above q cur → HasDatabase fs q → Above q m
      below q a k = elim (above_cases a) [
        | inl s ↦ absurd (lacks (subst (HasDatabase fs) s k))
        | inr (m', e', b) ↦ (let same : m' ≡ m = ground arith in subst (Above q) same b)
      ]

  root_above-IsRoot :
      (fuel : ℕ) (start cur : FilePath)
      → length cur.components < fuel
      → IsRoot fs start cur (root_above fuel fs start cur)
  unfolding root_above IsRoot HasDatabase
  root_above-IsRoot zero start cur h = absurd (omega arith)
  root_above-IsRoot (suc fuel) start cur h =
      elim (Bool-cases (
        exists (join (join cur (of_text (codes ".crosslink"))) (of_text (codes "issues.db"))) fs)) [
          | inl e ↦ rw e (inl (here cur, e, λ q a k. a))
          | inr e ↦ elim (Option-cases (parent cur)) [
            | inl n ↦ rw (e, n) (inr (alone n (lacks e), refl))
            | inr (m, n) ↦
                rw (e, n)
                  (IsRoot-up start cur m (root_above fuel fs start m) n (lacks e)
                    (root_above-IsRoot fuel start m (omega (arith, length-parent cur m n))))
          ]
        ]
    where
      lacks :
          exists (join (join cur (of_text (codes ".crosslink"))) (of_text (codes "issues.db"))) fs
            ≡ false
          → HasDatabase fs cur
          → ⊥
      lacks e k = false≢true (sym e ∙ k)

      alone :
          parent cur ≡ none
          → (HasDatabase fs cur → ⊥)
          → (q : FilePath) → Above q cur
          → HasDatabase fs q
          → ⊥
      alone n none_here q a k = elim (above_cases a) [
        | inl s ↦ none_here (subst (HasDatabase fs) s k)
        | inr (m, e, b) ↦ absurd (ground arith)
      ]

  -- The directory whose database a command opens is the nearest one, from the current directory
  -- upwards, that has a database; and the current one where none has. The fuel always suffices.
  pub repo_root_from_lem : (start : FilePath) → IsRoot fs start start (repo_root_from fs start)
  unfolding repo_root_from
  repo_root_from_lem start =
      root_above-IsRoot (length start.components + 2) start start (omega arith)
