-- ===== src/Cpu/Alu/Arithmetic.antt =====
-- The arithmetic right shift of a word that is sign-extended to 64 bits.
use native.Mathlib.Nat.{
  add-mul, mul_assoc, add-mul-div_right, div-add-mod', mod-lt, div-eq_of_lt, div-le_self,
  div-lt_iff_lt-mul, one-le-pow, pow-le-pow_right,
}
use cen.Base.{
  ℕ, zero, suc, ◌+◌, ◌-◌, ◌*◌, ◌/◌, ◌%◌, ◌^◌, ◌≤◌, ◌<◌, ◌≡◌, ◌⊎◌, inl, inr, refl, ◌∙◌, ap, sym, ltb,
  Bool, true, ◌==◌, ==_iff, all_below, all_below_sound, if◌then◌else◌, sext32, arith, ◌>>>◌,
}
use cen.Cpu.Words.{sar64, not64, negative}

-- The quotients of l and of its complement below n * P.
module _ (n P l : ℕ) (whole : P * n ≡ 2 ^ 32) (pos : 0 < n) (small : l < 2 ^ 32) where
  below : l / n < P
  below = (div-lt_iff_lt-mul {k = n} {x = l} {y = P} pos).1 (omega (arith, whole))

  complement : (2 ^ 32 - 1 - l) / n ≡ P - 1 - l / n
  complement =
      let q = l / n in
      let y = P - 1 - q in
      let r = l % n in
      let lt = mod-lt l {m = n} pos in
      let split : 2 ^ 32 - 1 - l ≡ n - 1 - r + y * n =
        let e : y + (1 + q) ≡ P = omega (arith, below) in
        omega (
          arith,
          div-add-mod' l n,
          add-mul y (1 + q) n,
          add-mul 1 q n,
          ap (λ (t : ℕ). t * n) e,
          whole,
          lt,
        ) in
      ap (λ (t : ℕ). t / n) split
      ∙ add-mul-div_right (n - 1 - r) y {z = n} pos
      ∙ ap (λ (t : ℕ). t + y) (div-eq_of_lt {n = n - 1 - r} {m = n} (omega arith))
      ∙ omega arith

  extended : (2 ^ 64 - 2 ^ 32 + l) / n ≡ l / n + (2 ^ 32 - 1) * P
  extended =
      let e : 2 ^ 64 - 2 ^ 32 + l ≡ l + (2 ^ 32 - 1) * P * n =
        omega (arith, mul_assoc (2 ^ 32 - 1) P n, whole) in
      ap (λ (t : ℕ). t / n) e ∙ add-mul-div_right l ((2 ^ 32 - 1) * P) {z = n} pos

-- The parts of 2 ^ 32, at each of the 32 amounts.
parts : (sa : ℕ) → sa < 32 → 2 ^ (32 - sa) * 2 ^ sa ≡ 2 ^ 32
unfolding all_below
parts sa h =
    (==_iff (2 ^ (32 - sa) * 2 ^ sa) (2 ^ 32)).0
      (all_below_sound (λ k. 2 ^ (32 - k) * 2 ^ k == 2 ^ 32) 32 sa h refl)

-- A negative word, by its low 32 bits l; the shift keeps q of them.
negative_word :
    (rt l n P q : ℕ)
    → rt ≡ 2 ^ 64 - 2 ^ 32 + l
    → 2 ^ 31 ≤ l
    → l < 2 ^ 32
    → q < P
    → (P ≤ 2 ^ 31) ⊎ (2 ^ 31 ≤ q)
    → P ≤ 2 ^ 32
    → rt / n ≡ q + (2 ^ 32 - 1) * P
    → (2 ^ 32 - 1 - l) / n ≡ P - 1 - q
    → sext32 (rt / n) ≡ 2 ^ 64 - 1 - (2 ^ 32 - 1 - l) / n
negative_word rt l n P q e top small lt half whole shifted complemented =
    let word : rt / n % 2 ^ 32 ≡ 2 ^ 32 - P + q = omega arith in
    ap (λ (x : ℕ). if ltb x (2 ^ 31) then x else 2 ^ 64 - 2 ^ 32 + x) word ∙ ground arith

-- A word shifted by no more than 31 either is kept whole or loses at least half.
enough : (sa l : ℕ) → sa < 32 → 2 ^ 31 ≤ l → (2 ^ (32 - sa) ≤ 2 ^ 31) ⊎ (2 ^ 31 ≤ l / 2 ^ sa)
enough zero l h top = inr (omega (arith, top))
enough (suc sa) l h top =
    inl (pow-le-pow_right {n = 2} (omega arith) {i = 32 - suc sa} {j = 31} (omega arith))

negative_shift :
    (sa l : ℕ)
    → sa < 32
    → 2 ^ 31 ≤ l
    → l < 2 ^ 32
    → sext32 ((2 ^ 64 - 2 ^ 32 + l) / 2 ^ sa) ≡ 2 ^ 64 - 1 - (2 ^ 32 - 1 - l) / 2 ^ sa
negative_shift sa l h top small =
    let n = 2 ^ sa in
    let P = 2 ^ (32 - sa) in
    let whole = parts sa h in
    let pos : 0 < n = omega (arith, one-le-pow sa 2) in
    negative_word (2 ^ 64 - 2 ^ 32 + l) l n P (l / n) refl top small (below n P l whole pos small)
      (enough sa l h top)
      (pow-le-pow_right {n = 2} (omega arith) {i = 32 - sa} {j = 32} (omega arith))
      (extended n P l whole pos small) (complement n P l whole pos small)

-- A shift of all 64 bits, cut to 32 afterwards, is the arithmetic shift of the word.
pub sra_lem : (rt sa : ℕ) → rt ≡ sext32 rt → sa < 32 → sext32 (rt >>> sa) ≡ sar64 rt sa
sra_lem rt sa word h = elim (halves rt word) [
  | inl low ↦ ground (arith, div-le_self rt (2 ^ sa))
  | inr high ↦
      let l = rt - (2 ^ 64 - 2 ^ 32) in
      let e : rt ≡ 2 ^ 64 - 2 ^ 32 + l = omega (arith, high) in
      let e' : not64 rt ≡ 2 ^ 32 - 1 - l = omega (arith, high) in
      let sign : negative rt ≡ true = ground (arith, high) in
      ap (λ (x : ℕ). sext32 (x / 2 ^ sa)) e
      ∙ negative_shift sa l h (omega (arith, high)) (omega (arith, high))
      ∙ sym (ap (λ (x : ℕ). 2 ^ 64 - 1 - x / 2 ^ sa) e')
      ∙ sym (ap (λ (b : Bool). if b then not64 (not64 rt >>> sa) else rt >>> sa) sign)
]
  where
    halves : (rt : ℕ) → rt ≡ sext32 rt → (rt < 2 ^ 31) ⊎ ((2 ^ 64 - 2 ^ 31 ≤ rt) × (rt < 2 ^ 64))
    halves rt e = ground arith
