-- ===== src/Prelude/Action.antt =====
-- Code that changes a state and may fail: the state comes back beside the error too.
use mathlib.Core.Path.{◌≡◌, refl, sym, ap, subst, ◌∙◌}
use mathlib.Core.Logic.{◌⊎◌, inl}
use native.Mathlib.Omega.{arith}
use crossbridge.Prelude.Results.{Result, ok, err, map_err}

abbrev pub Action : Type 0 → Type 0 → Type 0 → Type 0
Action S E A = S → Result E A × S

module _ {S E A : Type 0} where
  abbrev pub pure : A → Action S E A
  pure a s = (ok a, s)

  abbrev pub raise : E → Action S E A
  raise e s = (err e, s)

  abbrev pub lift : Result E A → Action S E A
  lift r s = (r, s)

  abbrev pub gets : (S → A) → Action S E A
  gets f s = (ok (f s), s)

module _ {S E F A : Type 0} where
  abbrev pub map_error : (E → F) → Action S E A → Action S F A
  map_error f m s = let (r, s') = m s in (map_err f r, s')

module _ {S E A B : Type 0} where
  abbrev pub continue : Result E A → (A → Action S E B) → Action S E B
  continue (ok a) f s = f a s
  continue (err e) f s = (err e, s)

  infixl 5 ◌>>=◌ ◌>>◌
  abbrev pub ◌>>=◌ : Action S E A → (A → Action S E B) → Action S E B
  ◌>>=◌ m f s = let (r, s') = m s in continue r f s'

  abbrev pub ◌>>◌ : Action S E A → Action S E B → Action S E B
  m >> k = m >>= λ _. k

  -- A chain that succeeds did so in every step.
  pub bind_ok :
      (m : Action S E A) (f : A → Action S E B) (s s' : S) (b : B)
      → (m >>= f) s ≡ (ok b, s')
      → (a : A) × (t : S) × (m s ≡ (ok a, t)) × (f a t ≡ (ok b, s'))
  bind_ok m f s s' b h = from (m s) refl h
    where
      from :
          (p : Result E A × S)
          → m s ≡ p
          → continue p.0 f p.1 ≡ (ok b, s')
          → (a : A) × (t : S) × (m s ≡ (ok a, t)) × (f a t ≡ (ok b, s'))
      from (ok a, t) e h = (a, t, e, h)
      from (err x, t) e h = ground arith

module _ {S E F A : Type 0} where
  pub map_error_ok :
      (g : E → F) (m : Action S E A) (s s' : S) (a : A)
      → map_error g m s ≡ (ok a, s')
      → m s ≡ (ok a, s')
  map_error_ok g m s s' a h = from (m s) refl h
    where
      from : (p : Result E A × S) → m s ≡ p → map_error g (λ u. p) s ≡ (ok a, s') → m s ≡ (ok a, s')
      from (ok x, t) e h = ground arith
      from (err x, t) e h = ground arith

module _ {S E A : Type 0} where
  abbrev pub LeavesState : Action S E A → Type 0
  LeavesState m = (s : S) → (m s).1 ≡ s

module _ {S E A B : Type 0} {P : Type 0} where
  -- A chain whose first step only reads fails with the state as it was, unless `P`, if the rest does.
  pub fails_clean :
      (m : Action S E A) (f : A → Action S E B) (s s' : S) (e : E)
      → (m >>= f) s ≡ (err e, s')
      → LeavesState m
      → ((a : A) → (m s).0 ≡ ok a → f a s ≡ (err e, s') → (s' ≡ s) ⊎ P)
      → (s' ≡ s) ⊎ P
  fails_clean m f s s' e h leaves rest = from (m s) refl h
    where
      from : (p : Result E A × S) → m s ≡ p → continue p.0 f p.1 ≡ (err e, s') → (s' ≡ s) ⊎ P
      from (ok a, t) step more =
          let same : t ≡ s = sym (ap (λ (x : Result E A × S). x.1) step) ∙ leaves s in
          rest a (ap (λ (x : Result E A × S). x.0) step)
            (subst (λ u. f a u ≡ (err e, s')) same more)
      from (err x, t) step more = inl (
          sym (ap (λ (x : Result E B × S). x.1) more)
          ∙ sym (ap (λ (x : Result E A × S). x.1) step)
          ∙ leaves s)
