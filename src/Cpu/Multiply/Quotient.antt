-- ===== src/Cpu/Multiply/Quotient.antt =====
-- LO and HI after a division are the quotient and the remainder.
use native.Mathlib.Nat.{div-add-mod', mod-lt, div-le_self}
use cen.Base.{
  ℕ, suc, zero, ◌+◌, ◌-◌, ◌*◌, ◌/◌, ◌%◌, ◌^◌, ◌≤◌, ◌<◌, ◌≡◌, ◌⊎◌, refl, ◌∙◌, ap, Bool, Bool-cases,
  inl, inr, true, false, not, ◌&&◌, ◌==◌, if◌then◌else◌, has, u32, u64, sext32, arith,
}
use cen.Cpu.State.{Vr4300, register_hi, register_lo}
use cen.Cpu.Words.{negative, neg64, magnitude, same, sdiv64, srem64}
use cen.Cpu.Words.Laws.{magnitude-le}
use cen.Cpu.Multiply.Divide.{div_divu, ddiv, ddivu}
use cen.Cpu.Multiply.Product.{operand}

abbrev pub lo_of : ℕ × Vr4300 → ℕ
lo_of r = r.1.regs register_lo

abbrev pub hi_of : ℕ × Vr4300 → ℕ
hi_of r = r.1.regs register_hi

-- lo and hi are the quotient and the remainder of signed double words, rounded towards 0. The
-- quotient `least` is the one that overflow gives.
abbrev pub IsQuotient : ℕ → ℕ → ℕ → ℕ → ℕ → Type 0
IsQuotient least lo hi x y =
    (magnitude lo * magnitude y + magnitude hi ≡ magnitude x)
    × (magnitude hi < magnitude y)
    × ((hi ≡ 0) ⊎ (negative hi ≡ negative x))
    × ((lo ≡ 0) ⊎ (lo ≡ least) ⊎ (negative lo ≡ not (same (negative x) (negative y))))

quotient_signed :
    (b : Bool) (q : ℕ)
    → q ≤ 2 ^ 63
    → (magnitude (if b then u64 q else neg64 q) ≡ q)
      × (((if b then u64 q else neg64 q) ≡ 0)
          ⊎ ((if b then u64 q else neg64 q) ≡ 2 ^ 63)
          ⊎ (negative (if b then u64 q else neg64 q) ≡ not b))
quotient_signed true q le = (ground arith, ground arith)
quotient_signed false q le = (ground arith, ground arith)

remainder_signed :
    (b : Bool) (r : ℕ)
    → r < 2 ^ 63
    → (magnitude (if b then neg64 r else r) ≡ r)
      × (((if b then neg64 r else r) ≡ 0) ⊎ (negative (if b then neg64 r else r) ≡ b))
remainder_signed true r lt = (ground arith, ground arith)
remainder_signed false r lt = (ground arith, ground arith)

euclid : (a b : ℕ) → 0 < b → (a / b * b + a % b ≡ a) × (a % b < b)
euclid a zero h = absurd (omega arith)
euclid a (suc b) h = (div-add-mod' a (suc b), mod-lt a {m = suc b} h)

magnitude-pos : (y : ℕ) → y < 2 ^ 64 → 0 < y → 0 < magnitude y
magnitude-pos y h pos = ground arith

sdiv64-IsQuotient :
    (x y : ℕ) → x < 2 ^ 64 → y < 2 ^ 64 → 0 < y → IsQuotient (2 ^ 63) (sdiv64 x y) (srem64 x y) x y
sdiv64-IsQuotient x y hx hy pos =
    let e = euclid (magnitude x) (magnitude y) (magnitude-pos y hy pos) in
    let q =
      quotient_signed (same (negative x) (negative y)) (magnitude x / magnitude y)
        (omega (arith, div-le_self (magnitude x) (magnitude y), magnitude-le x hx)) in
    let r =
      remainder_signed (negative x) (magnitude x % magnitude y)
        (omega (arith, e.1, magnitude-le y hy)) in
    (
      ap (λ (m : ℕ). m * magnitude y + magnitude (srem64 x y)) q.0
          ∙ ap (λ (m : ℕ). magnitude x / magnitude y * magnitude y + m) r.0
          ∙ e.0,
      omega (arith, r.0, e.1),
      r.1,
      q.1,
    )

-- The test of DDIV for INT64_MIN / -1.
overflowed :
    (rs rt : ℕ) → ((rs == 2 ^ 63) && (rt == 2 ^ 64 - 1)) ≡ true → (rs ≡ 2 ^ 63) × (rt ≡ 2 ^ 64 - 1)
overflowed rs rt h = ground arith

nonzero : (rt : ℕ) → 0 < rt → (rt == 0) ≡ false
nonzero rt h = ground arith

-- DDIVU divides unsigned double words.
pub ddivu-quotient :
    (c : Vr4300) (iw rs rt : ℕ)
    → 0 < rt
    → (lo_of (ddivu c iw rs rt) * rt + hi_of (ddivu c iw rs rt) ≡ rs)
      × (hi_of (ddivu c iw rs rt) < rt)
unfolding ddivu
ddivu-quotient c iw rs rt h = rw (nonzero rt h) (euclid rs rt h)

-- DDIV of 64-bit words by a divisor that is not 0 leaves in LO and HI the quotient rounded towards
-- 0 and its remainder, INT64_MIN by -1 included.
pub ddiv-IsQuotient :
    (c : Vr4300) (iw rs rt : ℕ)
    → rs < 2 ^ 64
    → rt < 2 ^ 64
    → 0 < rt
    → IsQuotient (2 ^ 63) (lo_of (ddiv c iw rs rt)) (hi_of (ddiv c iw rs rt)) rs rt
unfolding ddiv
ddiv-IsQuotient c iw rs rt hs ht pos = elim (Bool-cases ((rs == 2 ^ 63) && (rt == 2 ^ 64 - 1))) [
  | inl e ↦
      let o = overflowed rs rt e in
      rw (o.0, o.1) (omega arith, omega arith, inl refl, inr (inl refl))
  | inr e ↦ rw (e, nonzero rt pos) (sdiv64-IsQuotient rs rt hs ht pos)
]

quotient_narrow :
    (b : Bool) (q : ℕ)
    → q ≤ 2 ^ 31
    → (magnitude (sext32 (if b then u64 q else neg64 q)) ≡ q)
      × ((sext32 (if b then u64 q else neg64 q) ≡ 0)
          ⊎ (sext32 (if b then u64 q else neg64 q) ≡ 2 ^ 64 - 2 ^ 31)
          ⊎ (negative (sext32 (if b then u64 q else neg64 q)) ≡ not b))
quotient_narrow true q le = (ground arith, ground arith)
quotient_narrow false q le = (ground arith, ground arith)

remainder_narrow :
    (b : Bool) (r : ℕ)
    → r < 2 ^ 31
    → (magnitude (sext32 (if b then neg64 r else r)) ≡ r)
      × ((sext32 (if b then neg64 r else r) ≡ 0)
          ⊎ (negative (sext32 (if b then neg64 r else r)) ≡ b))
remainder_narrow true r lt = (ground arith, ground arith)
remainder_narrow false r lt = (ground arith, ground arith)

magnitude-sext32 : (x : ℕ) → magnitude (sext32 x) ≤ 2 ^ 31
magnitude-sext32 x = ground arith

narrow-IsQuotient :
    (x y : ℕ)
    → magnitude x ≤ 2 ^ 31
    → magnitude y ≤ 2 ^ 31
    → 0 < magnitude y
    → IsQuotient (2 ^ 64 - 2 ^ 31) (sext32 (sdiv64 x y)) (sext32 (srem64 x y)) x y
narrow-IsQuotient x y hx hy pos =
    let e = euclid (magnitude x) (magnitude y) pos in
    let q =
      quotient_narrow (same (negative x) (negative y)) (magnitude x / magnitude y)
        (omega (arith, div-le_self (magnitude x) (magnitude y))) in
    let r = remainder_narrow (negative x) (magnitude x % magnitude y) (omega (arith, e.1)) in
    (
      ap (λ (m : ℕ). m * magnitude y + magnitude (sext32 (srem64 x y))) q.0
          ∙ ap (λ (m : ℕ). magnitude x / magnitude y * magnitude y + m) r.0
          ∙ e.0,
      omega (arith, r.0, e.1),
      r.1,
      q.1,
    )

divisor : (rt : ℕ) → 0 < u32 rt → (0 < sext32 rt) × (0 < magnitude (sext32 rt))
divisor rt h = (ground arith, ground arith)

-- DIV by a divisor whose low word is not 0 leaves in LO and HI the quotient of the sign-extended
-- low words, rounded towards 0, and its remainder, INT32_MIN by -1 included.
pub div-IsQuotient :
    (c : Vr4300) (iw rs rt : ℕ)
    → has iw 1 ≡ false
    → 0 < u32 rt
    → IsQuotient
        (2 ^ 64 - 2 ^ 31)
        (lo_of (div_divu c iw rs rt))
        (hi_of (div_divu c iw rs rt))
        (sext32 rs)
        (sext32 rt)
unfolding div_divu
div-IsQuotient c iw rs rt is_div pos =
    let d = divisor rt pos in
    rw (is_div, operand false rs, operand false rt, nonzero (sext32 rt) d.0)
      (narrow-IsQuotient (sext32 rs) (sext32 rt) (magnitude-sext32 rs) (magnitude-sext32 rt) d.1)

low_word : (x : ℕ) → x < 2 ^ 32 → (u32 (sext32 x) ≡ x) × (magnitude x ≡ x) × (negative x ≡ false)
low_word x h = (ground arith, ground arith, ground arith)

-- The signed division of C on words that have no sign.
unsigned_division :
    (x y : ℕ)
    → x < 2 ^ 32
    → y < 2 ^ 32
    → 0 < y
    → (u32 (sext32 (sdiv64 x y)) * y + u32 (sext32 (srem64 x y)) ≡ x)
      × (u32 (sext32 (srem64 x y)) < y)
unsigned_division x y hx hy pos =
    let s = low_word x hx in
    let t = low_word y hy in
    let e = euclid x y pos in
    let q : u32 (sext32 (sdiv64 x y)) ≡ x / y =
      rw (s.1, s.2, t.1, t.2) (quotient_word (x / y) (omega (arith, div-le_self x y))) in
    let r : u32 (sext32 (srem64 x y)) ≡ x % y =
      rw (s.1, s.2, t.1) (low_word (x % y) (omega (arith, e.1))).0 in
    (
      ap (λ (m : ℕ). m * y + u32 (sext32 (srem64 x y))) q ∙ ap (λ (m : ℕ). x / y * y + m) r ∙ e.0,
      omega (arith, r, e.1),
    )
  where
    quotient_word : (q : ℕ) → q < 2 ^ 32 → u32 (sext32 (u64 q)) ≡ q
    quotient_word q h = let e : u64 q ≡ q = omega arith in rw e (low_word q h).0

-- DIVU divides unsigned words.
pub divu-quotient :
    (c : Vr4300) (iw rs rt : ℕ)
    → has iw 1 ≡ true
    → 0 < u32 rt
    → (u32 (lo_of (div_divu c iw rs rt)) * u32 rt + u32 (hi_of (div_divu c iw rs rt)) ≡ u32 rs)
      × (u32 (hi_of (div_divu c iw rs rt)) < u32 rt)
unfolding div_divu
divu-quotient c iw rs rt is_divu pos =
    rw (is_divu, operand true rs, operand true rt, nonzero (u32 rt) pos)
      (unsigned_division (u32 rs) (u32 rt) (omega arith) (omega arith) pos)
