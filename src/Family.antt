-- ===== src/Family.antt =====
-- Families `ℕ → A`, by thread or by address, with an update at one index.
pub mod Sums
use cpp_lockfree_core.Base.{ℕ, ◌≡◌, ◌≢◌, ℕ_discrete, arith}
use mathlib.Core.Logic.{ite}
use mathlib.Core.Path.{fun_ext}

abbrev pub update {ℓ} : {A : Type ℓ} → (ℕ → A) → ℕ → A → ℕ → A
update f i a j = ite (ℕ_discrete i j) a (f j)

module _ {ℓ} {A : Type ℓ} (f : ℕ → A) (i : ℕ) (a : A) where
  pub update_self : update f i a i ≡ a
  update_self = ground arith

  pub update_ne : (j : ℕ) → j ≢ i → update f i a j ≡ f j
  update_ne j h = ground arith

pub update-update {ℓ} :
    {A : Type ℓ} (f : ℕ → A) (i : ℕ) (a b : A) → update (update f i a) i b ≡ update f i b
update-update f i a b = fun_ext λ j. ground arith
