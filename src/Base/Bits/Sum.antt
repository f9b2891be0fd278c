-- ===== src/Base/Bits/Sum.antt =====
-- `a | b` from `a & b` and `a ^ b`, and the exclusive or with a mask of ones.
use Prim.Native.Nat.{
  ℕ, zero, suc, ◌+◌, ◌-◌, ◌*◌, ◌/◌, ◌%◌, ◌^◌, ◌≤◌, ◌<◌, bit_and, bit_or, bit_xor, bit_or-bitwise,
  bit_xor-bitwise, bit_and-bitwise,
}
use mathlib.Core.Path.{◌≡◌, ap, ◌∙◌}
use native.Mathlib.Nat.{one-le-pow, pow-succ', two-pow-succ, div-div-eq-div-mul}
use native.Mathlib.Omega.{arith}
use cen.Base.Bits.Step.{bit_and_step, bit_or_step}
use cen.Base.Bits.Single.{bit-complement, bit-le, bit_ext}
use cen.Base.Bits.Masks.{bit-ones, bit_or-zero, bit_and_low}
use cen.Base.Bits.Xor.{bit-xor, bit_xor-lt, bit_xor_mod}

-- The two operations have no bit in common, and together they have those of `|`; `n` bounds a.
and-xor_fuel : (n a b : ℕ) → a ≤ n → bit_and a b + bit_xor a b ≡ bit_or a b
and-xor_fuel n zero b h =
    omega (arith, bit_and-bitwise 0 b, bit_xor-bitwise 0 b, bit_or-bitwise 0 b)
and-xor_fuel zero (suc a) b h = absurd (omega arith)
and-xor_fuel (suc n) (suc a) b h = omega (
  arith,
  bit_and_step (suc a) b,
  bit_or_step (suc a) b,
  bit_xor_mod (suc a) b,
  and-xor_fuel n (suc a / 2) (b / 2) (omega arith),
)

pub bit_and-plus_bit_xor : (a b : ℕ) → bit_and a b + bit_xor a b ≡ bit_or a b
bit_and-plus_bit_xor a b = and-xor_fuel a a b (omega arith)

pub bit_xor-ones : (w x : ℕ) → x < 2 ^ w → bit_xor x (2 ^ w - 1) ≡ 2 ^ w - 1 - x
bit_xor-ones w x h =
    bit_ext w (bit_xor x (2 ^ w - 1)) (2 ^ w - 1 - x)
      (bit_xor-lt w x (2 ^ w - 1) h (omega (arith, one-le-pow w 2))) (omega (arith, one-le-pow w 2))
      λ k below. omega (
        arith,
        bit-xor k x (2 ^ w - 1),
        bit-ones w k below,
        bit-complement w k x h below,
        bit-le k x,
      )

two-mul-pow : (q k : ℕ) → q * 2 ^ suc k ≡ 2 * (q * 2 ^ k)
two-mul-pow q k = omega (arith, ap (λ (t : ℕ). q * t) (two-pow-succ k))

-- A mask whose low k bits are clear reads the word from bit k.
pub bit_and_shifted : (k x m : ℕ) → bit_and x (m * 2 ^ k) ≡ bit_and (x / 2 ^ k) m * 2 ^ k
bit_and_shifted zero x m =
    let e : m * 1 ≡ m = omega arith in let e' : x / 1 ≡ x = omega arith in rw (e, e') (omega arith)
bit_and_shifted (suc k) x m =
    let half : m * 2 ^ suc k / 2 ≡ m * 2 ^ k = omega (arith, two-mul-pow m k) in
    let step : bit_and x (m * 2 ^ suc k) ≡ bit_and (x / 2) (m * 2 ^ k) * 2 =
      rw (← half) (omega (arith, bit_and_step x (m * 2 ^ suc k), two-mul-pow m k)) in
    step
    ∙ ap (λ (t : ℕ). t * 2) (bit_and_shifted k (x / 2) m)
    ∙ rw (pow-succ' 2 k, ← div-div-eq-div-mul x 2 (2 ^ k)) (omega arith)

pub zero-bit_or : (b : ℕ) → bit_or 0 b ≡ b
zero-bit_or b = omega (arith, bit_or-bitwise 0 b)

pub bit_or-shift : (k a b : ℕ) → bit_or a b / 2 ^ k ≡ bit_or (a / 2 ^ k) (b / 2 ^ k)
bit_or-shift zero a b =
    let e : bit_or a b / 1 ≡ bit_or a b = omega arith in
    let e' : a / 1 ≡ a = omega arith in let e'' : b / 1 ≡ b = omega arith in rw (e, e', e'')
bit_or-shift (suc k) a b =
    let half : bit_or a b / 2 ≡ bit_or (a / 2) (b / 2) = omega (arith, bit_or_step a b) in
    rw
      (
        pow-succ' 2 k,
        ← div-div-eq-div-mul (bit_or a b) 2 (2 ^ k),
        ← div-div-eq-div-mul a 2 (2 ^ k),
        ← div-div-eq-div-mul b 2 (2 ^ k),
        half,
      )
      (bit_or-shift k (a / 2) (b / 2))

-- Parts that are both shifted up by k bits.
pub bit_or_scaled : (k a b : ℕ) → bit_or (a * 2 ^ k) (b * 2 ^ k) ≡ bit_or a b * 2 ^ k
bit_or_scaled zero a b =
    let e : a * 1 ≡ a = omega arith in let e' : b * 1 ≡ b = omega arith in rw (e, e') (omega arith)
bit_or_scaled (suc k) a b =
    let half : a * 2 ^ suc k / 2 ≡ a * 2 ^ k = omega (arith, two-mul-pow a k) in
    let half' : b * 2 ^ suc k / 2 ≡ b * 2 ^ k = omega (arith, two-mul-pow b k) in
    let step : bit_or (a * 2 ^ suc k) (b * 2 ^ suc k) ≡ bit_or (a * 2 ^ k) (b * 2 ^ k) * 2 =
      rw (← half, ← half')
        (omega
          (arith, bit_or_step (a * 2 ^ suc k) (b * 2 ^ suc k), two-mul-pow a k, two-mul-pow b k)) in
    omega (arith, step, bit_or_scaled k a b, two-mul-pow (bit_or a b) k)

-- Setting bit 1 of a word where it is clear, and clearing it where it is set.
pub set_bit_one : (s : ℕ) → s / 2 % 2 ≡ 0 → bit_or s 2 ≡ s + 2
set_bit_one s h = omega (arith, bit_or_step s 2, bit_or_step (s / 2) 1, bit_or-zero (s / 2 / 2))

pub clear_bit_one : (s : ℕ) → s < 2 ^ 32 → s / 2 % 2 ≡ 1 → bit_and s 0xFFFFFFFD ≡ s - 2
clear_bit_one s small h =
    omega (
      arith,
      bit_and_step s 0xFFFFFFFD,
      bit_and_step (s / 2) 0x7FFFFFFE,
      bit_and_low 30 (s / 2 / 2),
    )

-- `r | (q << k)` is a sum when `r` fits k bits.
pub bit_or_fields_right : (k q r : ℕ) → r < 2 ^ k → bit_or r (q * 2 ^ k) ≡ q * 2 ^ k + r
bit_or_fields_right zero q r h =
    let e : r ≡ 0 = omega arith in rw e (omega (arith, zero-bit_or (q * 1)))
bit_or_fields_right (suc k) q r h = ground (
  arith,
  bit_or_step r (q * 2 ^ suc k),
  two-mul-pow q k,
  bit_or_fields_right k q (r / 2) (omega (arith, two-pow-succ k)),
)
