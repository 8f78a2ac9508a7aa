-- ===== src/Family/Sums.antt =====
-- Sums over the threads of a system, and what an update at one thread does to them.
use cpp_lockfree_core.Base.{
  ℕ, suc, zero, ◌+◌, ◌*◌, ◌≡◌, ◌≤◌, ◌<◌, refl, sym, ap, ◌∙◌, arith, ℕ_discrete,
}
use cpp_lockfree_core.Family.{update, update_self, update_ne}

-- The sum of `h` over the threads below `n`.
unfoldable pub sum_over {ℓ} : {A : Type ℓ} → (A → ℕ) → (ℕ → A) → ℕ → ℕ
sum_over h pc zero = 0
sum_over h pc (suc n) = h (pc n) + sum_over h pc n

sum_beyond {ℓ} :
    {A : Type ℓ} (h : A → ℕ) (pc : ℕ → A) (i : ℕ) (p : A) (n : ℕ)
    → ¬ (i < n)
    → sum_over h (update pc i p) n ≡ sum_over h pc n
unfolding sum_over
sum_beyond h pc i p zero l = refl
sum_beyond h pc i p (suc n) l =
    let q : h (update pc i p n) ≡ h (pc n) = ap h (update_ne pc i p n (λ e. omega (arith, e, l))) in
    omega (arith, q, sum_beyond h pc i p n (λ z. omega (arith, l)))

pub sum_over-update {ℓ} :
    {A : Type ℓ} (h : A → ℕ) (pc : ℕ → A) (i : ℕ) (p : A) (n : ℕ)
    → i < n
    → sum_over h (update pc i p) n + h (pc i) ≡ sum_over h pc n + h p
unfolding sum_over
sum_over-update h pc i p zero l = absurd (omega arith)
sum_over-update h pc i p (suc n) l = elim (ℕ_discrete i n) [
  | yes e ↦
      let q : h (update pc i p n) ≡ h p = ap h (ap (update pc i p) (sym e) ∙ update_self pc i p) in
      let r : h (pc n) ≡ h (pc i) = ap (λ x. h (pc x)) (sym e) in
      omega (arith, q, r, sum_beyond h pc i p n (λ z. omega (arith, e)))
  | no ne ↦
      let q : h (update pc i p n) ≡ h (pc n) = ap h (update_ne pc i p n (λ z. ne (sym z))) in
      omega (arith, q, sum_over-update h pc i p n (omega (arith, ne)))
]

pub sum_over-member {ℓ} :
    {A : Type ℓ} (h : A → ℕ) (pc : ℕ → A) (i n : ℕ) → i < n → h (pc i) ≤ sum_over h pc n
unfolding sum_over
sum_over-member h pc i zero l = absurd (omega arith)
sum_over-member h pc i (suc n) l = elim (ℕ_discrete i n) [
  | yes e ↦ let r : h (pc n) ≡ h (pc i) = ap (λ x. h (pc x)) (sym e) in omega (arith, r)
  | no ne ↦ omega (arith, sum_over-member h pc i n (omega (arith, ne)))
]

turn : (b n : ℕ) → b * suc n ≡ b + b * n
turn b n = omega arith

-- If every thread has at most `b`, all of them have at most that often as many as there are threads.
pub sum_over-bound {ℓ} :
    {A : Type ℓ} (h : A → ℕ) (b : ℕ)
    → ((a : A) → h a ≤ b)
    → (pc : ℕ → A) (n : ℕ) → sum_over h pc n ≤ b * n
unfolding sum_over
sum_over-bound h b each pc zero = omega arith
sum_over-bound h b each pc (suc n) =
    omega (arith, each (pc n), sum_over-bound h b each pc n, turn b n)
