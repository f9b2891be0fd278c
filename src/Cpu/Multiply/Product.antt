-- ===== src/Cpu/Multiply/Product.antt =====
-- HI and LO after a multiplication are the two halves of the product.
use native.Mathlib.Nat.{mul-le-mul, add-mul, mul-add}
use cen.Base.{
  ℕ, ◌+◌, ◌-◌, ◌*◌, ◌/◌, ◌%◌, ◌^◌, ◌≤◌, ◌<◌, ◌≡◌, refl, ◌∙◌, ap, Bool, true, false, bit_and,
  bit_and_low, if◌then◌else◌, has, u32, u64, sext32, arith, ◌>>>◌,
}
use cen.Cpu.State.{Vr4300, register_hi, register_lo}
use cen.Cpu.Words.{mult_sex_mask, negative, magnitude, same, sext128}
use cen.Cpu.Words.Laws.{magnitude-le}
use cen.Cpu.Multiply.{mult_multu, dmult, dmultu}

-- The halves of a double word, from HI and LO.
abbrev pub hi_lo_64 : ℕ × Vr4300 → ℕ
hi_lo_64 r = r.1.regs register_hi * 2 ^ 64 + r.1.regs register_lo

abbrev pub hi_lo_32 : ℕ × Vr4300 → ℕ
hi_lo_32 r = u32 (r.1.regs register_hi) * 2 ^ 32 + u32 (r.1.regs register_lo)

sext32-lt : (x : ℕ) → sext32 x < 2 ^ 64
sext32-lt x = ground arith

u32-sext32 : (x : ℕ) → u32 (sext32 x) ≡ u32 x
u32-sext32 x = ground arith

-- The masks choose between a signed and an unsigned operand.
pub operand :
    (b : Bool) (x : ℕ) → bit_and (sext32 x) (mult_sex_mask b) ≡ (if b then u32 x else sext32 x)
operand true x = bit_and_low 32 (sext32 x) ∙ u32-sext32 x
operand false x = omega (arith, bit_and_low 64 (sext32 x), sext32-lt x)

halves : (p : ℕ) → u32 (sext32 (u64 p >>> 32)) * 2 ^ 32 + u32 (sext32 (u64 p)) ≡ u64 p
halves p = rw (u32-sext32 (u64 p >>> 32), u32-sext32 (u64 p)) (omega arith)

product-le : (top a b : ℕ) → a ≤ top → b ≤ top → a * b ≤ top * top
product-le top a b ha hb = mul-le-mul ha hb

chosen :
    (b : Bool) (rs rt : ℕ)
    → u64 ((if b then u32 rs else sext32 rs) * (if b then u32 rt else sext32 rt))
      ≡ (if b then u32 rs * u32 rt else u64 (sext32 rs * sext32 rt))
chosen true rs rt =
    omega (arith, product-le (2 ^ 32 - 1) (u32 rs) (u32 rt) (omega arith) (omega arith))
chosen false rs rt = refl

-- MULTU leaves in HI and LO the 64-bit product of the unsigned low words, MULT the product of the
-- sign-extended low words modulo 2^64.
pub mult_multu-product :
    (c : Vr4300) (iw rs rt : ℕ)
    → hi_lo_32 (mult_multu c iw rs rt)
      ≡ (if has iw 1 then u32 rs * u32 rt else u64 (sext32 rs * sext32 rt))
unfolding mult_multu
mult_multu-product c iw rs rt =
    halves (
      bit_and (sext32 rs) (mult_sex_mask (has iw 1))
      * bit_and (sext32 rt) (mult_sex_mask (has iw 1)))
    ∙ rw (operand (has iw 1) rs, operand (has iw 1) rt) (chosen (has iw 1) rs rt)

-- DMULTU keeps all 128 bits.
pub dmultu-product :
    (c : Vr4300) (iw rs rt : ℕ) → rs < 2 ^ 64 → rt < 2 ^ 64 → hi_lo_64 (dmultu c iw rs rt) ≡ rs * rt
unfolding dmultu
dmultu-product c iw rs rt hs ht =
    omega (arith, product-le (2 ^ 64 - 1) rs rt (omega arith) (omega arith))

join : (p : ℕ) → p % 2 ^ 128 / 2 ^ 64 * 2 ^ 64 + p % 2 ^ 128 % 2 ^ 64 ≡ p % 2 ^ 128
join p = omega arith

-- The complement of a factor is the complement of the product, on 128 bits.
complement : (a b : ℕ) → a ≤ 2 ^ 128 → (2 ^ 128 - a) * b + a * b ≡ 2 ^ 128 * b
complement a b h =
    let e : 2 ^ 128 - a + a ≡ 2 ^ 128 = omega arith in
    omega (arith, add-mul (2 ^ 128 - a) a b, ap (λ (t : ℕ). t * b) e)

complement_right : (a b : ℕ) → b ≤ 2 ^ 128 → a * (2 ^ 128 - b) + a * b ≡ 2 ^ 128 * a
complement_right a b h =
    let e : 2 ^ 128 - b + b ≡ 2 ^ 128 = omega arith in
    omega (arith, mul-add a (2 ^ 128 - b) b, ap (λ (t : ℕ). a * t) e)

-- The product of signed double words, from the signs and the magnitudes.
abbrev pub signed_product : ℕ → ℕ → ℕ
signed_product rs rt =
    let product = magnitude rs * magnitude rt in
    if same (negative rs) (negative rt) then product else (2 ^ 128 - product) % 2 ^ 128

-- A signed double word on 128 bits, by its sign.
signed : Bool → ℕ → ℕ
signed true a = 2 ^ 128 - a
signed false a = a

sext128_lem : (x : ℕ) → x < 2 ^ 64 → sext128 x ≡ signed (negative x) (magnitude x)
unfolding signed
sext128_lem x h = ground arith

by_signs :
    (s t : Bool) (a b : ℕ)
    → a ≤ 2 ^ 63
    → b ≤ 2 ^ 63
    → signed s a * signed t b % 2 ^ 128 ≡ (if same s t then a * b else (2 ^ 128 - a * b) % 2 ^ 128)
unfolding signed
by_signs true true a b ha hb = omega (
  arith,
  complement a (2 ^ 128 - b) (omega arith),
  complement_right a b (omega arith),
  product-le (2 ^ 63) a b ha hb,
)
by_signs true false a b ha hb =
    omega (arith, complement a b (omega arith), product-le (2 ^ 63) a b ha hb)
by_signs false true a b ha hb =
    omega (arith, complement_right a b (omega arith), product-le (2 ^ 63) a b ha hb)
by_signs false false a b ha hb = omega (arith, product-le (2 ^ 63) a b ha hb)

signed_product_lem :
    (rs rt : ℕ)
    → rs < 2 ^ 64
    → rt < 2 ^ 64
    → sext128 rs * sext128 rt % 2 ^ 128 ≡ signed_product rs rt
signed_product_lem rs rt hs ht =
    ap (λ (x : ℕ). x * sext128 rt % 2 ^ 128) (sext128_lem rs hs)
    ∙ ap (λ (y : ℕ). signed (negative rs) (magnitude rs) * y % 2 ^ 128) (sext128_lem rt ht)
    ∙ by_signs (negative rs) (negative rt) (magnitude rs) (magnitude rt) (magnitude-le rs hs)
        (magnitude-le rt ht)

-- DMULT of 64-bit words leaves in HI and LO the 128 bits of their signed product, given by the
-- signs and the magnitudes.
pub dmult-product :
    (c : Vr4300) (iw rs rt : ℕ)
    → rs < 2 ^ 64
    → rt < 2 ^ 64
    → hi_lo_64 (dmult c iw rs rt) ≡ signed_product rs rt
unfolding dmult
dmult-product c iw rs rt hs ht = join (sext128 rs * sext128 rt) ∙ signed_product_lem rs rt hs ht
