-- ===== src/Cpu/Tlb.antt =====
-- arch/x86_64/tlb/tlb.c: the translation lookaside buffer, with the effect of its SSE2 code: lane k
-- of a block of eight entries becomes bit k of the mask. common/one_hot.c: the table of its result.

pub mod Probe
use cen.Base.{
  ℕ, zero, suc, ◌+◌, ◌-◌, ◌*◌, ◌^◌, Bool, ◌&&◌, ◌||◌, List, ◌∷◌, ◌++◌, bit_and, bit_or, leb, ◌==◌,
  if◌then◌else◌, has, u32, not32, ◌>>>◌, ◌<<<◌, get_or, replicate, update,
}

-- struct cen64_tlb.
pub record Tlb : Type 0 where
  pub page_mask : ℕ → ℕ
  pub vpn2 : ℕ → ℕ
  pub global : ℕ → ℕ
  pub asid : ℕ → ℕ
  pub valid : ℕ → ℕ

unfoldable pub tlb_init : Tlb → Tlb
tlb_init tlb = record tlb {
  vpn2 = λ i. if leb 32 i then tlb.vpn2 i else 2 ^ 32 - 1;
  valid = λ i. if leb 32 i then tlb.valid i else 0;
}

-- cen64_one_hot_lut, with -1 as an unsigned int.
abbrev pub one_hot_lut : List ℕ
one_hot_lut =
    let none_of = 2 ^ 32 - 1 in
    none_of
    ∷ 0
    ∷ 1
    ∷ none_of
    ∷ 2
    ∷ (replicate 3 none_of
        ++ 3 ∷ replicate 7 none_of
        ++ 4 ∷ replicate 15 none_of
        ++ 5 ∷ replicate 31 none_of
        ++ 6 ∷ replicate 63 none_of
        ++ 7 ∷ replicate 127 none_of)

abbrev pub vpn2_of : ℕ → ℕ
vpn2_of address = bit_or (bit_and (address >>> 35) 0x18000000) (bit_and (address >>> 13) 0x7FFFFFF)

-- A lane of `vpn_check`, and of `check`.
abbrev pub same_page : Tlb → ℕ → ℕ → Bool
same_page tlb vaddr i = bit_and (vpn2_of vaddr) (tlb.page_mask i) == tlb.vpn2 i

abbrev pub matches : Tlb → ℕ → ℕ → ℕ → Bool
matches tlb vaddr vasid i =
    same_page tlb vaddr i && (leb 0x80 (tlb.global i) || (tlb.asid i == vasid))

abbrev pub lane : Bool → ℕ → ℕ
lane set k = if set then 2 ^ k else 0

-- `_mm_movemask_epi8` of eight lanes.
unfoldable pub movemask : (ℕ → Bool) → ℕ
movemask set =
    lane (set 0) 0
    + lane (set 1) 1
    + lane (set 2) 2
    + lane (set 3) 3
    + lane (set 4) 4
    + lane (set 5) 5
    + lane (set 6) 6
    + lane (set 7) 7

-- The upper eight lanes repeat the page, and compare an ASID of 0, since `_mm_loadl_epi64` clears
-- the upper half.
unfoldable pub one_hot_idx : Tlb → ℕ → ℕ → ℕ → ℕ
one_hot_idx tlb vaddr vasid i =
    movemask (λ k. matches tlb vaddr vasid (i + k))
    + movemask (λ k. same_page tlb vaddr (i + k) && (0 == vasid)) * 2 ^ 8

-- The loop over the blocks that are left; the result and the index.
unfoldable pub probe_blocks : Tlb → ℕ → ℕ → ℕ → ℕ → ℕ × ℕ
probe_blocks tlb vaddr vasid i zero = (1, 0)
probe_blocks tlb vaddr vasid i (suc blocks) =
    let mask = one_hot_idx tlb vaddr vasid i in
    if mask == 0
    then probe_blocks tlb vaddr vasid (i + 8) blocks
    else (0, u32 (i + get_or one_hot_lut (bit_and mask 0xFF) 0))

unfoldable pub tlb_probe : Tlb → ℕ → ℕ → ℕ × ℕ
tlb_probe tlb vaddr vasid = probe_blocks tlb vaddr vasid 0 4

unfoldable pub tlb_read : Tlb → ℕ → ℕ
tlb_read tlb index =
    let region = bit_and (tlb.vpn2 index) 0x18000000 <<< 35 in
    let vpn2 = bit_and (tlb.vpn2 index) 0x7FFFFFF <<< 13 in
    let global = bit_and (tlb.global index) 1 <<< 12 in
    bit_or (bit_or (bit_or region vpn2) global) (tlb.asid index)

unfoldable pub tlb_write : Tlb → ℕ → ℕ → ℕ → ℕ → ℕ → Tlb
tlb_write tlb index entry_hi entry_lo_0 entry_lo_1 page_mask =
    let global = has entry_lo_0 0x1 && has entry_lo_1 0x1 in
    let valid = has entry_lo_0 0x2 || has entry_lo_1 0x2 in
    record {
      page_mask = update tlb.page_mask index (not32 (page_mask >>> 13));
      vpn2 = update tlb.vpn2 index (vpn2_of entry_hi);
      global = update tlb.global index (if global then 0xFF else 0);
      asid = update tlb.asid index (bit_and entry_hi 0xFF);
      valid = update tlb.valid index (if valid then 0xFF else 0);
    }
