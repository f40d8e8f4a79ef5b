-- ===== src/Prelude/HashMap/Laws.antt =====
-- What a map holds after each operation, and its entries as lists.
use mathlib.Core.Path.{◌≡◌, refl, sym, ap, ◌∙◌}
use mathlib.Core.Logic.{inl, inr}
use mathlib.Core.Bool.{true, false, false≢true}
use mathlib.Core.Option.{none, some}
use mathlib.Core.List.{[], ◌∷◌}
use native.Mathlib.Omega.{arith}
use crossbridge.Prelude.Tests.{if◌then◌else◌, Bool-cases, PartialEq, ◌==◌}
use crossbridge.Prelude.Lists.{In, Distinct, contains, length}
use Prim.Native.Nat.{◌≤◌, ◌<◌}
use crossbridge.Prelude.HashMap.{HashMap, keys, values, get, remove, insert, contains_key}

module _ {K V : Type 0} ⦃e : PartialEq K⦄ where
  pub get-remove :
      (k j : K) (m : HashMap K V) → get j (remove k m) ≡ (if k == j then none else get j m)
  unfolding get remove
  get-remove k j [] = ground arith
  get-remove k j ((i, v) ∷ m) =
      ground (arith, get-remove k j m, e.is_eq_iff i k, e.is_eq_iff i j, e.is_eq_iff k j)

  pub get-insert :
      (k j : K) (v : V) (m : HashMap K V)
      → get j (insert k v m) ≡ (if k == j then some v else get j m)
  unfolding get insert
  get-insert k j v m = ground (arith, get-remove k j m)

  pub remove-nil : (k : K) → remove {V = V} k [] ≡ []
  unfolding remove
  remove-nil k = refl

  pub insert-ne-nil : (k : K) (v : V) (m : HashMap K V) → insert k v m ≡ [] → ⊥
  unfolding insert
  insert-ne-nil k v m h = cc

  pub contains_key-some :
      (k : K) (m : HashMap K V) → contains_key k m ≡ true → (v : V) × (get k m ≡ some v)
  unfolding contains_key
  contains_key-some k m h = ground arith

  pub contains_key-none : (k : K) (m : HashMap K V) → contains_key k m ≡ false → get k m ≡ none
  unfolding contains_key
  contains_key-none k m h = ground arith

  pub In-keys-get : (k : K) (m : HashMap K V) → In k (keys m) → (v : V) × (get k m ≡ some v)
  unfolding get
  In-keys-get k [] h = absurd h
  In-keys-get k ((j, v) ∷ m) h = elim (Bool-cases (j == k)) [
    | inl same ↦ rw same (v, refl)
    | inr other ↦ rw other (In-keys-get k m (tail_of other h))
  ]
    where
      tail_of : (j == k) ≡ false → In k (j ∷ keys m) → In k (keys m)
      tail_of other (inl eq) = absurd (false≢true (sym other ∙ (e.is_eq_iff j k).1 (sym eq)))
      tail_of other (inr r) = r

  pub In-keys_of_get : (k : K) (v : V) (m : HashMap K V) → get k m ≡ some v → In k (keys m)
  unfolding get
  In-keys_of_get k v [] h = cc
  In-keys_of_get k v ((j, w) ∷ m) h = ground (arith, e.is_eq_iff j k, In-keys_of_get k v m)

  pub contains-keys : (k : K) (m : HashMap K V) → contains (keys m) k ≡ contains_key k m
  unfolding contains_key get
  contains-keys k [] = refl
  contains-keys k ((j, v) ∷ m) = ground (arith, contains-keys k m)

  pub In-keys-remove : (k j : K) (m : HashMap K V) → In j (keys (remove k m)) → In j (keys m)
  unfolding remove
  In-keys-remove k j [] h = h
  In-keys-remove k j ((i, v) ∷ m) h = ground (arith, In-keys-remove k j m)

  pub not-In-keys-remove : (k : K) (m : HashMap K V) → In k (keys (remove k m)) → ⊥
  unfolding remove
  not-In-keys-remove k [] h = h
  not-In-keys-remove k ((i, v) ∷ m) h = ground (arith, e.is_eq_iff i k, not-In-keys-remove k m)

  pub keys-remove-Distinct :
      (k : K) (m : HashMap K V) → Distinct (keys m) → Distinct (keys (remove k m))
  unfolding remove
  keys-remove-Distinct k [] d = d
  keys-remove-Distinct k ((i, v) ∷ m) d = elim (Bool-cases (i == k)) [
    | inl same ↦ rw same (keys-remove-Distinct k m d.1)
    | inr other ↦ rw other ((λ h. d.0 (In-keys-remove k i m h)), keys-remove-Distinct k m d.1)
  ]

  pub keys-insert-Distinct :
      (k : K) (v : V) (m : HashMap K V) → Distinct (keys m) → Distinct (keys (insert k v m))
  unfolding insert
  keys-insert-Distinct k v m d = (not-In-keys-remove k m, keys-remove-Distinct k m d)

  -- The values of a map are what its keys hold.
  pub In-values_of_get : (k : K) (v : V) (m : HashMap K V) → get k m ≡ some v → In v (values m)
  unfolding get
  In-values_of_get k v [] h = cc
  In-values_of_get k v ((j, w) ∷ m) h = ground (arith, In-values_of_get k v m)

  pub get_of_In-values :
      (v : V) (m : HashMap K V) → Distinct (keys m) → In v (values m) → (k : K) × (get k m ≡ some v)
  unfolding get
  get_of_In-values v [] d h = absurd h
  get_of_In-values v ((j, w) ∷ m) d (inl eq) = (j, rw ((e.is_eq_iff j j).1 refl) (ap some (sym eq)))
  get_of_In-values v ((j, w) ∷ m) d (inr r) =
      let (k, found) = get_of_In-values v m d.1 r in
      (
        k,
        elim (Bool-cases (j == k)) [
          | inl same ↦ absurd (d.0 (rw ((e.is_eq_iff j k).0 same) (In-keys_of_get k v m found)))
          | inr other ↦ rw other found
        ],
      )

  length-remove_le : (k : K) (m : HashMap K V) → length (remove k m) ≤ length m
  unfolding remove
  length-remove_le k [] = omega arith
  length-remove_le k ((j, w) ∷ m) = ground (arith, length-remove_le k m)

  -- Removing an entry makes the map smaller.
  pub length-remove :
      (k : K) (v : V) (m : HashMap K V) → get k m ≡ some v → length (remove k m) < length m
  unfolding remove get
  length-remove k v [] h = cc
  length-remove k v ((j, w) ∷ m) h = ground (arith, length-remove_le k m, length-remove k v m)

pub ruleset map_laws = (get-remove, get-insert)
