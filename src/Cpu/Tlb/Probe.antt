-- ===== src/Cpu/Tlb/Probe.antt =====
-- The probe against the entries, taken one by one.
use cen.Base.{
  ℕ, zero, suc, ◌+◌, ◌-◌, ◌*◌, ◌^◌, ◌≤◌, ◌<◌, ◌≡◌, ◌≢◌, inl, inr, refl, sym, ◌∙◌, ap, Bool, true,
  false, ◌&&◌, bit_and, bit_and_low, Bool-cases, ltb, ◌==◌, ==_iff, if◌then◌else◌, u32, get_or,
  arith,
}
use cen.Cpu.Tlb.{
  Tlb, one_hot_lut, same_page, matches, movemask, one_hot_idx, probe_blocks, tlb_probe,
}

-- Only lane j is set, if any.
abbrev Only : (ℕ → Bool) → ℕ → Type 0
Only set j = (k : ℕ) → k < 8 → k ≢ j → set k ≡ false

movemask_one : (set : ℕ → Bool) (j : ℕ) → j < 8 → set j ≡ true → Only set j → movemask set ≡ 2 ^ j
unfolding movemask
movemask_one set zero h on off = ground (arith, off 1, off 2, off 3, off 4, off 5, off 6, off 7)
movemask_one set (suc zero) h on off =
    ground (arith, off 0, off 2, off 3, off 4, off 5, off 6, off 7)
movemask_one set (suc (suc zero)) h on off =
    ground (arith, off 0, off 1, off 3, off 4, off 5, off 6, off 7)
movemask_one set (suc (suc (suc zero))) h on off =
    ground (arith, off 0, off 1, off 2, off 4, off 5, off 6, off 7)
movemask_one set (suc (suc (suc (suc zero)))) h on off =
    ground (arith, off 0, off 1, off 2, off 3, off 5, off 6, off 7)
movemask_one set (suc (suc (suc (suc (suc zero))))) h on off =
    ground (arith, off 0, off 1, off 2, off 3, off 4, off 6, off 7)
movemask_one set (suc (suc (suc (suc (suc (suc zero)))))) h on off =
    ground (arith, off 0, off 1, off 2, off 3, off 4, off 5, off 7)
movemask_one set (suc (suc (suc (suc (suc (suc (suc zero))))))) h on off =
    ground (arith, off 0, off 1, off 2, off 3, off 4, off 5, off 6)
movemask_one set (suc (suc (suc (suc (suc (suc (suc (suc j)))))))) h on off = absurd (omega arith)

movemask_none : (set : ℕ → Bool) → Only set 8 → movemask set ≡ 0
unfolding movemask
movemask_none set off = ground (arith, off 0, off 1, off 2, off 3, off 4, off 5, off 6, off 7)

lut_one : (j : ℕ) → j < 8 → get_or one_hot_lut (2 ^ j) 0 ≡ j
lut_one zero h = refl
lut_one (suc zero) h = refl
lut_one (suc (suc zero)) h = refl
lut_one (suc (suc (suc zero))) h = refl
lut_one (suc (suc (suc (suc zero)))) h = refl
lut_one (suc (suc (suc (suc (suc zero))))) h = refl
lut_one (suc (suc (suc (suc (suc (suc zero)))))) h = refl
lut_one (suc (suc (suc (suc (suc (suc (suc zero))))))) h = refl
lut_one (suc (suc (suc (suc (suc (suc (suc (suc j)))))))) h = absurd (omega arith)

pow_small : (j : ℕ) → j < 8 → (0 < 2 ^ j) × (2 ^ j < 256)
pow_small zero h = omega arith
pow_small (suc zero) h = omega arith
pow_small (suc (suc zero)) h = omega arith
pow_small (suc (suc (suc zero))) h = omega arith
pow_small (suc (suc (suc (suc zero)))) h = omega arith
pow_small (suc (suc (suc (suc (suc zero))))) h = omega arith
pow_small (suc (suc (suc (suc (suc (suc zero)))))) h = omega arith
pow_small (suc (suc (suc (suc (suc (suc (suc zero))))))) h = omega arith
pow_small (suc (suc (suc (suc (suc (suc (suc (suc j)))))))) h = absurd (omega arith)

movemask_pos : (set : ℕ → Bool) (j : ℕ) → j < 8 → set j ≡ true → 0 < movemask set
unfolding movemask
movemask_pos set zero h on = ground arith
movemask_pos set (suc zero) h on = ground arith
movemask_pos set (suc (suc zero)) h on = ground arith
movemask_pos set (suc (suc (suc zero))) h on = ground arith
movemask_pos set (suc (suc (suc (suc zero)))) h on = ground arith
movemask_pos set (suc (suc (suc (suc (suc zero))))) h on = ground arith
movemask_pos set (suc (suc (suc (suc (suc (suc zero)))))) h on = ground arith
movemask_pos set (suc (suc (suc (suc (suc (suc (suc zero))))))) h on = ground arith
movemask_pos set (suc (suc (suc (suc (suc (suc (suc (suc j)))))))) h on = absurd (omega arith)

module _ (tlb : Tlb) (vaddr vasid : ℕ) where
  -- With an ASID, the upper lanes are clear.
  one_hot_idx-low :
      (i : ℕ)
      → vasid ≢ 0
      → one_hot_idx tlb vaddr vasid i ≡ movemask (λ k. matches tlb vaddr vasid (i + k))
  unfolding one_hot_idx
  one_hot_idx-low i user =
      let upper =
        movemask_none (λ k. same_page tlb vaddr (i + k) && (0 == vasid)) (λ k h ne. ground arith) in
      omega (arith, upper)

  skip_block :
      (i n : ℕ)
      → vasid ≢ 0
      → ((k : ℕ) → k < 8 → matches tlb vaddr vasid (i + k) ≡ false)
      → probe_blocks tlb vaddr vasid i (suc n) ≡ probe_blocks tlb vaddr vasid (i + 8) n
  unfolding probe_blocks
  skip_block i n user off =
      let e : one_hot_idx tlb vaddr vasid i ≡ 0 =
        one_hot_idx-low i user
        ∙ movemask_none (λ k. matches tlb vaddr vasid (i + k)) (λ k h ne. off k h) in
      rw e refl

  find_block :
      (i n j : ℕ)
      → vasid ≢ 0
      → j < 8
      → i + 8 ≤ 32
      → matches tlb vaddr vasid (i + j) ≡ true
      → Only (λ k. matches tlb vaddr vasid (i + k)) j
      → probe_blocks tlb vaddr vasid i (suc n) ≡ (0, i + j)
  unfolding probe_blocks
  find_block i n j user small inside on off =
      let e : one_hot_idx tlb vaddr vasid i ≡ 2 ^ j =
        one_hot_idx-low i user
        ∙ movemask_one (λ k. matches tlb vaddr vasid (i + k)) j small on off in
      let pow = pow_small j small in
      let byte : bit_and (2 ^ j) 0xFF ≡ 2 ^ j = bit_and_low 8 (2 ^ j) ∙ omega (arith, pow) in
      let nonzero : (2 ^ j == 0) ≡ false = ground (arith, pow) in
      let wrap : u32 (i + j) ≡ i + j = omega arith in
      rw (e, nonzero) (rw (byte, lut_one j small, wrap) refl)

  find :
      (n i j : ℕ)
      → vasid ≢ 0
      → i + 8 * n ≡ 32
      → i ≤ j
      → j < 32
      → matches tlb vaddr vasid j ≡ true
      → ((k : ℕ) → k < 32 → k ≢ j → matches tlb vaddr vasid k ≡ false)
      → probe_blocks tlb vaddr vasid i n ≡ (0, j)
  find zero i j user whole low high on off = absurd (omega arith)
  find (suc n) i j user whole low high on off = elim (Bool-cases (ltb j (i + 8))) [
    | inl inside ↦
        let small : j - i < 8 = ground (arith, inside) in
        let at : i + (j - i) ≡ j = omega arith in
        find_block i n (j - i) user small (omega arith) (ap (matches tlb vaddr vasid) at ∙ on)
          (λ k h ne. off (i + k) (omega arith) (omega arith))
        ∙ ap (λ (index : ℕ). (0, index)) at
    | inr beyond ↦
        let above : i + 8 ≤ j = ground (arith, beyond) in
        skip_block i n user (λ k h. off (i + k) (omega arith) (omega arith))
        ∙ find n (i + 8) j user (omega arith) above high on off
  ]

  miss :
      (n i : ℕ)
      → vasid ≢ 0
      → i + 8 * n ≡ 32
      → ((k : ℕ) → k < 32 → matches tlb vaddr vasid k ≡ false)
      → probe_blocks tlb vaddr vasid i n ≡ (1, 0)
  unfolding probe_blocks
  miss zero i user whole off = refl
  miss (suc n) i user whole off =
      skip_block i n user (λ k h. off (i + k) (omega arith)) ∙ miss n (i + 8) user (omega arith) off

  -- The entries one by one, from entry i on: the first that matches.
  unfoldable pub scan : ℕ → ℕ → ℕ × ℕ
  scan i zero = (1, 0)
  scan i (suc left) = if matches tlb vaddr vasid i then (0, i) else scan (i + 1) left

  -- No two entries answer for the address.
  abbrev pub Distinct : Type 0
  Distinct =
      (j k : ℕ)
      → j < 32
      → k < 32
      → matches tlb vaddr vasid j ≡ true
      → matches tlb vaddr vasid k ≡ true
      → j ≡ k

  only_one :
      (i k : ℕ)
      → i < 32
      → k < 32
      → matches tlb vaddr vasid i ≡ true
      → k ≢ i
      → Distinct
      → matches tlb vaddr vasid k ≡ false
  only_one i k below below' on ne one = elim (Bool-cases (matches tlb vaddr vasid k)) [
    | inl too ↦ absurd (ne (one k i below' below too on))
    | inr no_match ↦ no_match
  ]

  scan_lem :
      (n i : ℕ)
      → vasid ≢ 0
      → Distinct
      → i + n ≡ 32
      → ((k : ℕ) → k < i → matches tlb vaddr vasid k ≡ false)
      → tlb_probe tlb vaddr vasid ≡ scan i n
  unfolding tlb_probe scan
  scan_lem zero i user one whole off = miss 4 0 user (omega arith) (λ k h. off k (omega arith))
  scan_lem (suc n) i user one whole off = elim (Bool-cases (matches tlb vaddr vasid i)) [
    | inl on ↦
        find 4 0 i user (omega arith) (omega arith) (omega arith) on
          (λ k h ne. only_one i k (omega arith) h on ne one)
        ∙ ap (λ (t : Bool). if t then (0, i) else scan (i + 1) n) (sym on)
    | inr not_here ↦
        scan_lem n (i + 1) user one (omega arith) (λ k h. elim (Bool-cases (k == i)) [
          | inl same ↦ ap (matches tlb vaddr vasid) ((==_iff k i).0 same) ∙ not_here
          | inr other ↦ off k (ground (arith, other))
        ])
        ∙ ap (λ (t : Bool). if t then (0, i) else scan (i + 1) n) (sym not_here)
  ]

  -- With an ASID that is not 0, and no two entries that match, the probe of eight entries at a
  -- time gives what a scan of the 32 entries one by one gives.
  pub tlb_probe-scan : vasid ≢ 0 → Distinct → tlb_probe tlb vaddr vasid ≡ scan 0 32
  tlb_probe-scan user one = scan_lem 32 0 user one (omega arith) (λ k h. absurd (omega arith))

  -- If no entry of the first eight matches under ASID 0, and one of them holds the page for
  -- another address space, the probe reports a hit at the index -1, outside of the TLB.
  pub tlb_probe-asid_zero :
      (j : ℕ)
      → vasid ≡ 0
      → j < 8
      → same_page tlb vaddr j ≡ true
      → ((k : ℕ) → k < 8 → matches tlb vaddr vasid k ≡ false)
      → tlb_probe tlb vaddr vasid ≡ (0, 2 ^ 32 - 1)
  unfolding tlb_probe probe_blocks one_hot_idx
  tlb_probe-asid_zero j kernel small page off =
      let upper_lane = λ (k : ℕ). same_page tlb vaddr (0 + k) && (0 == vasid) in
      let upper : 0 < movemask upper_lane =
        movemask_pos upper_lane j small (ground (arith, page)) in
      let lower =
        movemask_none (λ k. matches tlb vaddr vasid (0 + k))
          (λ k h ne. off (0 + k) (omega arith)) in
      let mask = one_hot_idx tlb vaddr vasid 0 in
      let low_byte : bit_and mask 0xFF ≡ 0 = bit_and_low 8 mask ∙ omega (arith, lower) in
      let nonzero : (mask == 0) ≡ false = ground (arith, upper) in rw nonzero (rw low_byte refl)
