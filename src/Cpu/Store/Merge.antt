-- ===== src/Cpu/Store/Merge.antt =====
-- What a write under the mask of SWL or SWR leaves of a word.
use native.Mathlib.Nat.{one-le-pow, pow-le-pow_right, mod-lt}
use cen.Base.{
  ℕ, ◌+◌, ◌-◌, ◌*◌, ◌/◌, ◌%◌, ◌^◌, ◌≤◌, ◌<◌, ◌≡◌, ◌∙◌, ap, ap₂, bit_and, bit_or, merge, arith,
  bit_and_low, bit_and_high, bit_or_fields, bit_or_fields_right,
}

pow-pos : (n : ℕ) → 0 < 2 ^ n
pow-pos n = omega (arith, one-le-pow n 2)

-- The low n bits are replaced.
pub merge_low :
    (n old word : ℕ)
    → n ≤ 32
    → old < 2 ^ 32
    → merge old (bit_and word (2 ^ n - 1)) (2 ^ n - 1) ≡ old / 2 ^ n * 2 ^ n + word % 2 ^ n
merge_low n old word h small =
    let kept : 2 ^ 32 - 1 - (2 ^ n - 1) ≡ 2 ^ 32 - 2 ^ n = omega (arith, one-le-pow n 2) in
    ap₂ bit_or (ap (bit_and old) kept ∙ bit_and_high 32 n old h small) (bit_and_low n word)
    ∙ bit_or_fields n (old / 2 ^ n) (word % 2 ^ n) (mod-lt word {m = 2 ^ n} (pow-pos n))

-- The bits from n on are replaced.
pub merge_high :
    (n old word : ℕ)
    → n ≤ 32
    → word < 2 ^ 32
    → merge old (bit_and word (2 ^ 32 - 2 ^ n)) (2 ^ 32 - 2 ^ n)
      ≡ word / 2 ^ n * 2 ^ n + old % 2 ^ n
merge_high n old word h small =
    let kept : 2 ^ 32 - 1 - (2 ^ 32 - 2 ^ n) ≡ 2 ^ n - 1 =
      omega (arith, pow-le-pow_right {n = 2} (omega arith) {i = n} {j = 32} h, one-le-pow n 2) in
    ap₂ bit_or (ap (bit_and old) kept ∙ bit_and_low n old) (bit_and_high 32 n word h small)
    ∙ bit_or_fields_right n (word / 2 ^ n) (old % 2 ^ n) (mod-lt old {m = 2 ^ n} (pow-pos n))
