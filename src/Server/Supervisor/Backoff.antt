-- ===== src/Server/Supervisor/Backoff.antt =====
-- crossbridge-server/src/supervisor.rs: how long the server waits between attempts, and when it stops.
use native.Mathlib.Numerals.{unary_clauses}
use crossbridge.Prelude.{
  ℕ, zero, suc, ◌*◌, ◌^◌, min, true, false, some, List, [], ◌∷◌, ◌++◌, ◌≡◌, refl, arith, Result, ok,
  err, length, All,
}
use crossbridge.Prelude.Text.{Text}
use crossbridge.Server.Supervisor.{
  next_backoff, is_rejection, retry, connect_and_register_with_backoff,
}

-- `n` waits: 2^k, 2^(k+1), ..., each cut at 60.
unfoldable pub schedule : ℕ → ℕ → List ℕ
schedule k zero = []
schedule k (suc n) = min (2 ^ k) 60 ∷ schedule (suc k) n

next_backoff_lem : (k : ℕ) → next_backoff (min (2 ^ k) 60) ≡ min (2 ^ suc k) 60
unfolding next_backoff
next_backoff_lem k = simp unary_clauses (doubled (2 ^ k))
  where
    doubled : (x : ℕ) → min (min x 60 * 2) 60 ≡ min (x * 2) 60
    doubled x = omega arith

module _ {A : Type 0} where
  -- An attempt that is tried again: an error that is no rejection.
  unfoldable pub IsRetried : Result Text A → Type 0
  IsRetried (ok reg) = ⊥
  IsRetried (err e) = is_rejection e ≡ false

  -- An attempt that ends the loop.
  unfoldable pub IsFinal : Result Text A → Type 0
  IsFinal (ok reg) = Unit
  IsFinal (err e) = is_rejection e ≡ true

  retry_lem :
      (k : ℕ) (fails : List (Result Text A)) (last : Result Text A) (more : List (Result Text A))
      → All IsRetried fails
      → IsFinal last
      → retry (min (2 ^ k) 60) (fails ++ last ∷ more) ≡ (schedule k (length fails), some last)
  unfolding retry schedule IsRetried IsFinal
  retry_lem k [] (ok reg) more a f = refl
  retry_lem k [] (err e) more a f = rw f refl
  retry_lem k (ok reg ∷ fails) last more a f = absurd a.0
  retry_lem k (err e ∷ fails) last more a f =
      rw (a.0, next_backoff_lem k, retry_lem (suc k) fails last more a.1) refl

  -- The server tries until the first attempt that registers or is rejected, and that is what comes
  -- back; before the attempts in between it sleeps 1, 2, 4, ... seconds, never more than 60.
  pub backoff_lem :
      (fails : List (Result Text A)) (last : Result Text A) (more : List (Result Text A))
      → All IsRetried fails
      → IsFinal last
      → connect_and_register_with_backoff (fails ++ last ∷ more)
        ≡ (schedule 0 (length fails), some last)
  unfolding connect_and_register_with_backoff
  backoff_lem fails last more a f = retry_lem 0 fails last more a f
