-- ===== src/Base/Bits/Xor.antt =====
-- Exclusive or: bits, bounds, shifts and the split of a word into a low and a high part.
use Prim.Native.Nat.{
  ℕ, zero, suc, ◌+◌, ◌*◌, ◌/◌, ◌%◌, ◌^◌, ◌≤◌, ◌<◌, differ, bit_xor, bit_xor-bitwise,
}
use mathlib.Core.Path.{◌≡◌, refl, ap, ◌∙◌}
use native.Mathlib.Nat.{two-pow-succ, one-le-pow, pow-succ', div-div-eq-div-mul}
use native.Mathlib.Omega.{arith}
use cen.Base.Bits.Step.{bit_xor_step}
use cen.Base.Bits.Single.{bit, bit-le, bit-bit_xor}

differ_mod : (a b : ℕ) → a ≤ 1 → b ≤ 1 → differ a b ≡ (a + b) % 2
differ_mod zero b p q = omega arith
differ_mod (suc zero) zero p q = omega arith
differ_mod (suc zero) (suc zero) p q = omega arith
differ_mod (suc zero) (suc (suc b)) p q = absurd (omega arith)
differ_mod (suc (suc a)) b p q = absurd (omega arith)

-- A bit of an exclusive or, in arithmetic.
pub bit-xor : (k a b : ℕ) → bit k (bit_xor a b) ≡ (bit k a + bit k b) % 2
bit-xor k a b = bit-bit_xor k a b ∙ differ_mod (bit k a) (bit k b) (bit-le k a) (bit-le k b)

pub bit_xor_mod : (a b : ℕ) → bit_xor a b ≡ bit_xor (a / 2) (b / 2) * 2 + (a % 2 + b % 2) % 2
bit_xor_mod a b =
    omega (arith, bit_xor_step a b, differ_mod (a % 2) (b % 2) (omega arith) (omega arith))

xor-zero_fuel : (n a : ℕ) → a ≤ n → bit_xor a 0 ≡ a
xor-zero_fuel n zero h = refl
xor-zero_fuel zero (suc a) h = absurd (omega arith)
xor-zero_fuel (suc n) (suc a) h =
    omega (arith, bit_xor_mod (suc a) 0, xor-zero_fuel n (suc a / 2) (omega arith))

pub bit_xor-zero : (a : ℕ) → bit_xor a 0 ≡ a
bit_xor-zero a = xor-zero_fuel a a (omega arith)

pub bit_xor-lt : (w a b : ℕ) → a < 2 ^ w → b < 2 ^ w → bit_xor a b < 2 ^ w
bit_xor-lt zero a b p q =
    let e : a ≡ 0 = omega arith in
    let e' : b ≡ 0 = omega arith in rw (e, e') (omega (arith, bit_xor-zero 0))
bit_xor-lt (suc w) a b p q = omega (
  arith,
  bit_xor_mod a b,
  two-pow-succ w,
  bit_xor-lt w (a / 2) (b / 2) (omega (arith, two-pow-succ w)) (omega (arith, two-pow-succ w)),
)

pub bit_xor-shift : (k a b : ℕ) → bit_xor a b / 2 ^ k ≡ bit_xor (a / 2 ^ k) (b / 2 ^ k)
bit_xor-shift zero a b =
    let e : bit_xor a b / 1 ≡ bit_xor a b = omega arith in
    let e' : a / 1 ≡ a = omega arith in let e'' : b / 1 ≡ b = omega arith in rw (e, e', e'')
bit_xor-shift (suc k) a b =
    let half : bit_xor a b / 2 ≡ bit_xor (a / 2) (b / 2) = omega (arith, bit_xor_mod a b) in
    rw
      (
        pow-succ' 2 k,
        ← div-div-eq-div-mul (bit_xor a b) 2 (2 ^ k),
        ← div-div-eq-div-mul a 2 (2 ^ k),
        ← div-div-eq-div-mul b 2 (2 ^ k),
        half,
      )
      (bit_xor-shift k (a / 2) (b / 2))

zero-xor : (b : ℕ) → bit_xor 0 b ≡ b
zero-xor b = omega (arith, bit_xor-bitwise 0 b)

two-mul-pow : (q k : ℕ) → q * 2 ^ suc k ≡ 2 * (q * 2 ^ k)
two-mul-pow q k = omega (arith, ap (λ (t : ℕ). q * t) (two-pow-succ k))

xor_of_fields : (k q r : ℕ) → r < 2 ^ k → bit_xor r (q * 2 ^ k) ≡ q * 2 ^ k + r
xor_of_fields zero q r h = let e : r ≡ 0 = omega arith in rw e (omega (arith, zero-xor (q * 1)))
xor_of_fields (suc k) q r h = ground (
  arith,
  bit_xor_mod r (q * 2 ^ suc k),
  two-mul-pow q k,
  xor_of_fields k q (r / 2) (omega (arith, two-pow-succ k)),
)

-- The low k bits and the rest of a word make it up.
pub bit_xor-split : (k x : ℕ) → bit_xor (x % 2 ^ k) (x / 2 ^ k * 2 ^ k) ≡ x
bit_xor-split k x = ground (arith, one-le-pow k 2, xor_of_fields k (x / 2 ^ k) (x % 2 ^ k))
