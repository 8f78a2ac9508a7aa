-- ===== src/Base/Masks.antt =====
-- `bit_and` with a mask of ones is a remainder.
use Prim.Native.Nat.{
  ℕ, zero, suc, ◌+◌, ◌-◌, ◌*◌, ◌/◌, ◌%◌, ◌^◌, ◌≤◌, ◌<◌, min, bit_and, digits, bit_and-bitwise,
}
use native.Mathlib.Nat.{mod-lt, mod-eq_of_lt, add-mul-mod_self_left, div-add-mod, pow-suc, add-mod}
use mathlib.Core.Logic.{◌≢◌}
use native.Mathlib.Decide.{dec_le}
use mathlib.Core.Path.{◌≡◌, refl, sym, ap, ◌∙◌}
use native.Mathlib.Omega.{arith}
use cpp_lockfree_core.Base.Tests.{mod_small, mod_wrap}

abbrev both : ℕ → ℕ → ℕ → ℕ
both n a b = digits (λ b. zero) min n a b

-- Any two counts of digits that are enough give the same.
both_enough : (a b n m : ℕ) → a ≤ n → a ≤ m → both n a b ≡ both m a b
both_enough a b n m h l = go n m a b h l
  where
    go : (n m a b : ℕ) → a ≤ n → a ≤ m → both n a b ≡ both m a b
    go zero zero a b h l = refl
    go zero (suc m) zero b h l = refl
    go (suc n) zero zero b h l = refl
    go (suc n) (suc m) zero b h l = refl
    go zero m (suc a) b h l = absurd (omega arith)
    go n zero (suc a) b h l = absurd (omega arith)
    go (suc n) (suc m) (suc a) b h l =
        omega (arith, go n m (suc a / 2) (b / 2) (omega arith) (omega arith))

bit_and_halves : (a b : ℕ) → bit_and a b ≡ bit_and (a / 2) (b / 2) * 2 + min (a % 2) (b % 2)
bit_and_halves zero b = omega (arith, bit_and-bitwise 0 b, bit_and-bitwise 0 (b / 2))
bit_and_halves (suc a) b = omega (
  arith,
  bit_and-bitwise (suc a) b,
  bit_and-bitwise (suc a / 2) (b / 2),
  both_enough (suc a / 2) (b / 2) a (suc a / 2) (omega arith) (omega arith),
)

mod_double : (n m : ℕ) → 0 < m → n % (m * 2) ≡ (n / 2) % m * 2 + n % 2
mod_double n m h =
    let l = mod-lt (n / 2) h in
    let split : n ≡ (((n / 2) % m) * 2 + n % 2) + (m * 2) * (n / 2 / m) =
      omega (arith, div-add-mod (n / 2) m) in
    ap (λ x. x % (m * 2)) split
    ∙ add-mul-mod_self_left (((n / 2) % m) * 2 + n % 2) (m * 2) (n / 2 / m)
    ∙ mod-eq_of_lt (omega (arith, l))

pow_pos : (k : ℕ) → 0 < 2 ^ k
pow_pos zero = omega arith
pow_pos (suc k) = omega (arith, pow-suc 2 k, pow_pos k)

zero-mask : (a : ℕ) → bit_and a 0 ≡ 0
zero-mask a = go a a (omega arith)
  where
    go : (n a : ℕ) → a ≤ n → bit_and a 0 ≡ 0
    go n zero h = refl
    go zero (suc a) h = absurd (omega arith)
    go (suc n) (suc a) h = omega (arith, bit_and_halves (suc a) 0, go n (suc a / 2) (omega arith))

pub bit_and-mask : (a k : ℕ) → bit_and a (2 ^ k - 1) ≡ a % 2 ^ k
bit_and-mask a zero = zero-mask a ∙ omega arith
bit_and-mask a (suc k) =
    let p = pow_pos k in
    let two : 2 ^ suc k ≡ 2 ^ k * 2 = pow-suc 2 k in
    let half : (2 ^ suc k - 1) / 2 ≡ 2 ^ k - 1 = omega arith in
    let low : (2 ^ suc k - 1) % 2 ≡ 1 = omega arith in
    bit_and_halves a (2 ^ suc k - 1)
    ∙ omega (
      arith,
      ap (bit_and (a / 2)) half ∙ bit_and-mask (a / 2) k,
      mod_double a (2 ^ k) p,
      ap (λ m. a % m) two,
      low,
    )

too_near : (c p d : ℕ) → 0 < d → d < c → p % c ≢ (p + d) % c
too_near c p d pos l e =
    let r = mod-lt p {m = c} (omega arith) in
    let sum : (p + d) % c ≡ (p % c + d) % c =
      add-mod p d c ∙ ap (λ x. (p % c + x) % c) (mod_small c d l) in
    elim (dec_le c (p % c + d)) [
      | yes h ↦ omega (arith, e, sum, mod_wrap c (p % c + d) h (omega arith))
      | no h ↦ omega (arith, e, sum, mod_small c (p % c + d) (omega (arith, h)))
    ]

-- Numbers with the same remainder are the same or a whole turn apart.
pub mod-apart : (c p q : ℕ) → p % c ≡ q % c → p < q → p + c ≤ q
mod-apart c p q e l = elim (dec_le (p + c) q) [
  | yes h ↦ h
  | no h ↦
      let sum : p + (q - p) ≡ q = omega arith in
      absurd (too_near c p (q - p) (omega arith) (omega (arith, h)) (e ∙ ap (λ x. x % c) (sym sum)))
]
