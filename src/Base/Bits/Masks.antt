-- ===== src/Base/Bits/Masks.antt =====
-- Masks: a single bit, the low bits, the high bits, and bounds on the results.
use Prim.Native.Nat.{ℕ, zero, suc, ◌+◌, ◌-◌, ◌*◌, ◌/◌, ◌%◌, ◌^◌, ◌≤◌, ◌<◌}
use Prim.Native.Nat.{bit_and, bit_or, bit_and-bitwise}
use mathlib.Core.Path.{◌≡◌, refl, ap, ◌∙◌}
use native.Mathlib.Nat.{two-pow-succ, one-le-pow, pow-succ', div-div-eq-div-mul, mod-eq_of_lt}
use native.Mathlib.Omega.{arith}
use cen.Base.Tests.{◌==◌}
use cen.Base.Word.{has}
use cen.Base.Bits.Step.{bit_and_step, bit_or_step}
use cen.Base.Bits.Single.{bit, bit-le, bit-zero, bit-bit_and, bit-complement, bit_ext}

-- Halving a number down to zero; `top` bounds the depth.
zero_operand : (top x : ℕ) → x ≤ top → (bit_or x 0 ≡ x) × (bit_and x 0 ≡ 0)
zero_operand top zero small = (refl, refl)
zero_operand zero (suc x) small = absurd (omega arith)
zero_operand (suc top) (suc x) small =
    let half = zero_operand top (suc x / 2) (omega arith) in
    (omega (arith, bit_or_step (suc x) 0, half.0), omega (arith, bit_and_step (suc x) 0, half.1))

pub bit_and-zero : (a : ℕ) → bit_and a 0 ≡ 0
bit_and-zero a = (zero_operand a a (omega arith)).1

pub bit_or-zero : (a : ℕ) → bit_or a 0 ≡ a
bit_or-zero a = (zero_operand a a (omega arith)).0

pub bit_and_pow : (k x : ℕ) → bit_and x (2 ^ k) ≡ bit k x * 2 ^ k
unfolding bit
bit_and_pow zero x = omega (arith, bit_and_step x 1, bit_and-zero (x / 2))
bit_and_pow (suc k) x =
    let e : 2 ^ suc k / 2 ≡ 2 ^ k = omega (arith, two-pow-succ k) in
    let step : bit_and x (2 ^ suc k) ≡ bit_and (x / 2) (2 ^ k) * 2 =
      rw (← e) (omega (arith, bit_and_step x (2 ^ suc k), two-pow-succ k)) in
    rw (step, bit_and_pow k (x / 2)) (grind (arith, two-pow-succ k))

-- A test of a single bit.
pub has-bit : (k x : ℕ) → has x (2 ^ k) ≡ (bit k x == 1)
has-bit k x = rw (bit_and_pow k x) (grind (arith, bit-le k x, one-le-pow k 2))

two-mul-pow : (q k : ℕ) → q * 2 ^ suc k ≡ 2 * (q * 2 ^ k)
two-mul-pow q k = omega (arith, ap (λ (t : ℕ). q * t) (two-pow-succ k))

low_of_fields : (k q r : ℕ) → r < 2 ^ k → bit_and (q * 2 ^ k + r) (2 ^ k - 1) ≡ r
low_of_fields zero q r h = omega (arith, bit_and-zero (q * 1 + r))
low_of_fields (suc k) q r h = ground (
  arith,
  bit_and_step (q * 2 ^ suc k + r) (2 ^ suc k - 1),
  two-mul-pow q k,
  two-pow-succ k,
  low_of_fields k q (r / 2) (omega (arith, two-pow-succ k)),
)

-- A mask of k low bits is the remainder by 2 ^ k.
pub bit_and_low : (k x : ℕ) → bit_and x (2 ^ k - 1) ≡ x % 2 ^ k
bit_and_low k x = ground (arith, one-le-pow k 2, low_of_fields k (x / 2 ^ k) (x % 2 ^ k))

-- `(q << k) | r` is a sum when `r` fits k bits.
pub bit_or_fields : (k q r : ℕ) → r < 2 ^ k → bit_or (q * 2 ^ k) r ≡ q * 2 ^ k + r
bit_or_fields zero q r h = let e : r ≡ 0 = omega arith in rw e (omega (arith, bit_or-zero (q * 1)))
bit_or_fields (suc k) q r h = ground (
  arith,
  bit_or_step (q * 2 ^ suc k) r,
  two-mul-pow q k,
  bit_or_fields k q (r / 2) (omega (arith, two-pow-succ k)),
)

le_left_fuel : (n a b : ℕ) → a ≤ n → bit_and a b ≤ a
le_left_fuel n zero b h = omega (arith, bit_and-bitwise 0 b)
le_left_fuel zero (suc a) b h = absurd (omega arith)
le_left_fuel (suc n) (suc a) b h =
    omega (arith, bit_and_step (suc a) b, le_left_fuel n (suc a / 2) (b / 2) (omega arith))

le_right_fuel : (n a b : ℕ) → b ≤ n → bit_and a b ≤ b
le_right_fuel n a zero h = omega (arith, bit_and-zero a)
le_right_fuel zero a (suc b) h = absurd (omega arith)
le_right_fuel (suc n) a (suc b) h =
    omega (arith, bit_and_step a (suc b), le_right_fuel n (a / 2) (suc b / 2) (omega arith))

pub bit_and-le_left : (a b : ℕ) → bit_and a b ≤ a
bit_and-le_left a b = le_left_fuel a a b (omega arith)

pub bit_and-le_right : (a b : ℕ) → bit_and a b ≤ b
bit_and-le_right a b = le_right_fuel b a b (omega arith)

pub bit_or-lt : (w a b : ℕ) → a < 2 ^ w → b < 2 ^ w → bit_or a b < 2 ^ w
bit_or-lt zero a b p q =
    let e : a ≡ 0 = omega arith in
    let e' : b ≡ 0 = omega arith in rw (e, e') (omega (arith, bit_or-zero 0))
bit_or-lt (suc w) a b p q = omega (
  arith,
  bit_or_step a b,
  two-pow-succ w,
  bit_or-lt w (a / 2) (b / 2) (omega (arith, two-pow-succ w)) (omega (arith, two-pow-succ w)),
)

pub bit-ones : (k j : ℕ) → j < k → bit j (2 ^ k - 1) ≡ 1
bit-ones k j below =
    let e : 2 ^ k - 1 - 0 ≡ 2 ^ k - 1 = omega arith in
    rw (← e) (omega (arith, bit-complement k j 0 (omega (arith, one-le-pow k 2)) below, bit-zero j))

-- A mask of k bits sees the low k bits only.
pub bit_and_mod : (k x m : ℕ) → m < 2 ^ k → bit_and x m ≡ bit_and (x % 2 ^ k) m
bit_and_mod k x m h =
    bit_ext k (bit_and x m) (bit_and (x % 2 ^ k) m) (omega (arith, bit_and-le_right x m))
      (omega (arith, bit_and-le_right (x % 2 ^ k) m))
      λ j below. omega (
        arith,
        bit-bit_and j x m,
        bit-bit_and j (x % 2 ^ k) m,
        ap (bit j) (bit_and_low k x),
        bit-bit_and j x (2 ^ k - 1),
        bit-ones k j below,
        bit-le j x,
      )

-- A mask of the bits from k to w clears the low k bits.
pub bit_and_high : (w k x : ℕ) → k ≤ w → x < 2 ^ w → bit_and x (2 ^ w - 2 ^ k) ≡ x / 2 ^ k * 2 ^ k
bit_and_high w zero x le h = bit_and_low w x ∙ mod-eq_of_lt h ∙ omega arith
bit_and_high zero (suc k) x le h = absurd (omega arith)
bit_and_high (suc w) (suc k) x le h =
    let ih = bit_and_high w k (x / 2) (omega arith) (omega (arith, two-pow-succ w)) in
    let half : (2 ^ suc w - 2 ^ suc k) / 2 ≡ 2 ^ w - 2 ^ k =
      omega (arith, two-pow-succ w, two-pow-succ k) in
    let step : bit_and x (2 ^ suc w - 2 ^ suc k) ≡ bit_and (x / 2) (2 ^ w - 2 ^ k) * 2 =
      rw (← half)
        (omega (arith, bit_and_step x (2 ^ suc w - 2 ^ suc k), two-pow-succ w, two-pow-succ k)) in
    rw (step, ih, pow-succ' 2 k, ← div-div-eq-div-mul x 2 (2 ^ k)) (omega arith)
