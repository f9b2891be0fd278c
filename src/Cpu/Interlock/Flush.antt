-- ===== src/Cpu/Interlock/Flush.antt =====
-- The invariant of the data cache, and a flush of a line under it.
use cen.Base.{
  ℕ, ◌+◌, ◌*◌, ◌/◌, ◌%◌, ◌^◌, ◌≤◌, ◌<◌, ◌≡◌, ◌≢◌, inl, inr, refl, sym, ◌∙◌, ap, some, Bool, true,
  false, ◌&&◌, Bool-cases, if◌then◌else◌, bit, bit_and, bit_or, bit_and_low, bit_and_high,
  bit_and_pow, bit_and_shifted, bit_or_fields, ◌>>>◌, arith,
}
use cen.Cpu.Cache.{
  Line, Lines, page_of, get_tag, is_valid, is_dirty, hits, filled, dcache_index, get_line,
  dcache_get_tag,
}
use cen.Cpu.Machine.{BusOps}
use cen.Cpu.Interlock.{swapped, write_line, flush_line}
use cen.Cpu.Interlock.Transfer.{InRam, Memory, write_line_lem}

pub index_lem : (x : ℕ) → dcache_index x ≡ x / 16 % 512
index_lem x = bit_and_low 9 (x >>> 4)

pub page_lem : (a : ℕ) → a < 2 ^ 32 → page_of a ≡ a / 4096 * 4096
page_lem a h = bit_and_high 32 12 a (omega arith) h

-- The address of the line at an index.
abbrev pub line_address : ℕ → Line → ℕ
line_address i line = get_tag line + i % 256 * 16

flush_address :
    (line : Line) (vaddr : ℕ)
    → line.metadata < 2 ^ 32
    → dcache_get_tag line vaddr ≡ line_address (dcache_index vaddr) line
unfolding dcache_get_tag
flush_address line vaddr small =
    let low : bit_and vaddr 0xFF0 ≡ vaddr / 16 % 256 * 16 =
      bit_and_shifted 4 vaddr 0xFF ∙ ap (λ (t : ℕ). t * 16) (bit_and_low 8 (vaddr / 16)) in
    let tag = page_lem line.metadata small in
    let fields = bit_or_fields 12 (line.metadata / 4096) (vaddr / 16 % 256 * 16) (omega arith) in
    rw (tag, low, index_lem vaddr) (fields ∙ omega arith)

-- A line that was filled is valid and clean, under the tag of its page.
pub filled_lem :
    (line : Line) (p : ℕ) (words : ℕ → ℕ)
    → p < 2 ^ 32
    → ((filled line p words).metadata < 2 ^ 32)
      × (get_tag (filled line p words) ≡ p / 4096 * 4096)
      × (is_valid (filled line p words) ≡ true)
      × (is_dirty (filled line p words) ≡ false)
unfolding bit
filled_lem line p words small =
    let sum : bit_or (page_of p) 1 ≡ p / 4096 * 4096 + 1 =
      rw (page_lem p small) (bit_or_fields 12 (p / 4096) 1 (omega arith)) in
    let low : bit_and (p / 4096 * 4096 + 1) 1 ≡ 1 =
      bit_and_low 1 (p / 4096 * 4096 + 1) ∙ omega arith in
    let second : bit_and (p / 4096 * 4096 + 1) 2 ≡ 0 =
      bit_and_pow 1 (p / 4096 * 4096 + 1) ∙ omega arith in
    let tag : page_of (p / 4096 * 4096 + 1) ≡ p / 4096 * 4096 =
      page_lem (p / 4096 * 4096 + 1) (omega arith) ∙ omega arith in
    rw sum (omega arith, tag, rw low refl, rw second refl)

module _ {S : Type 0} {b : BusOps S} (mem : Memory S b) where
  open mem use {Valid, word}

  -- A valid line stands at the index of its address, and agrees with memory if it is clean.
  pub record IsPlaced (s : S) (i : ℕ) (line : Line) : Type 0 where
    pub words_small : (k : ℕ) → line.words k < 2 ^ 32
    pub in_ram : get_tag line + 4096 ≤ 0x800000
    pub at_index : get_tag line / 4096 % 2 ≡ i / 256
    pub clean :
        is_dirty line ≡ false
        → (k : ℕ) → k < 4
        → line.words (swapped k) ≡ word s (line_address i line + k * 4)

  pub record Coherent (dcache : Lines) (s : S) : Type 0 where
    pub valid : Valid s
    pub small : (i : ℕ) → (dcache i).metadata < 2 ^ 32
    pub placed : (i : ℕ) → i < 512 → is_valid (dcache i) ≡ true → IsPlaced s i (dcache i)

  -- The word that the processor sees at a physical address.
  abbrev pub value : Lines → S → ℕ → ℕ
  value dcache s a =
      let line = dcache (dcache_index a) in
      if hits line a then line.words (swapped (a / 4 % 4)) else word s a

  -- Memory after the line at an index was flushed.
  abbrev pub Flushed : S → S → ℕ → Line → Type 0
  Flushed s s' i line =
      Valid s'
      × (is_valid line ≡ true
          → (k : ℕ) → k < 4
          → word s' (line_address i line + k * 4) ≡ line.words (swapped k))
      × ((c : ℕ)
          → InRam c
          → (is_valid line ≡ true → (k : ℕ) → k < 4 → c ≢ line_address i line + k * 4)
          → word s' c ≡ word s c)

  module _ (dcache : Lines) (s : S) (vaddr : ℕ) (c : Coherent dcache s) where
    abbrev pub old : Line
    old = get_line dcache vaddr

    abbrev pub index : ℕ
    index = dcache_index vaddr

    pub tag_lem : (i : ℕ) → get_tag (dcache i) ≡ (dcache i).metadata / 4096 * 4096
    tag_lem i = page_lem (dcache i).metadata (c.small i)

    index_small : (x : ℕ) → dcache_index x < 512
    index_small x = omega (arith, index_lem x)

    flush_dirty :
        is_dirty old ≡ true
        → is_valid old ≡ true
        → flush_line b s dcache vaddr ≡ write_line b 0 4 s (dcache_get_tag old vaddr) old
    unfolding flush_line
    flush_dirty dirty valid = rw (dirty, valid, flush_line) refl

    flush_other : (is_dirty old && is_valid old) ≡ false → flush_line b s dcache vaddr ≡ some s
    unfolding flush_line
    flush_other no_flush = rw (no_flush, flush_line) refl

    pub flush_lem : (s' : S) × (flush_line b s dcache vaddr ≡ some s') × Flushed s s' index old
    flush_lem = elim (Bool-cases (is_valid old)) [
      | inr invalid ↦
          (s, flush_other (ground (arith, invalid)), (c.valid, λ valid. cc, λ a inside other. refl))
      | inl valid ↦
          let placed = c.placed index (index_small vaddr) valid in
          elim (Bool-cases (is_dirty old)) [
            | inr not_dirty ↦ (
              s,
              flush_other (ground (arith, not_dirty)),
              (c.valid, λ valid' k h. sym (placed.clean not_dirty k h), λ a inside other. refl),
            )
            | inl dirty ↦
                let w =
                  write_line_lem mem s (line_address index old) old c.valid
                    (omega (arith, tag_lem index)) (omega (arith, placed.in_ram))
                    placed.words_small in
                (
                  w.0,
                  flush_dirty dirty valid
                      ∙ ap (λ (a : ℕ). write_line b 0 4 s a old)
                          (flush_address old vaddr (c.small index))
                      ∙ w.1,
                  (
                    w.2.0,
                    λ valid' k h. w.2.1 k (omega arith) h,
                    λ a inside other. w.2.2 a inside (λ k from h. other valid k h),
                  ),
                )
          ]
    ]

    abbrev pub flushed : S
    flushed = flush_lem.0

    -- The words of a valid line are those under its tag at its index.
    module _ (i a : ℕ) (small : i < 512) (placed : IsPlaced s i (dcache i)) (inside : InRam a) where
      word_of_tag :
          dcache_index a ≡ i
          → get_tag (dcache i) ≡ page_of a
          → a ≡ line_address i (dcache i) + a / 4 % 4 * 4
      word_of_tag at tag =
          let place = tag_lem i in
          let page = page_lem a (omega (arith, inside.below)) in
          let low = index_lem a in omega (arith, place, page, low, at, tag, inside.aligned)

      pub tag_of_word :
          (k : ℕ)
          → k < 4
          → a ≡ line_address i (dcache i) + k * 4
          → (dcache_index a ≡ i) × (get_tag (dcache i) ≡ page_of a)
      tag_of_word k h e =
          let place = tag_lem i in
          let page = page_lem a (omega (arith, inside.below)) in
          let low = index_lem a in
          let half = placed.at_index in
          (omega (arith, place, low, half, e), omega (arith, place, page, e))

    value_at :
        (i a : ℕ)
        → dcache_index a ≡ i
        → value dcache s a
          ≡ (if hits (dcache i) a then (dcache i).words (swapped (a / 4 % 4)) else word s a)
    value_at i a at =
        ap
          (λ (j : ℕ).
            if hits (dcache j) a then (dcache j).words (swapped (a / 4 % 4)) else word s a)
          at

    -- After the flush memory alone has the value of each word at the index.
    pub flushed_word :
        (a : ℕ) → InRam a → dcache_index a ≡ index → word flushed a ≡ value dcache s a
    flushed_word a inside at = elim (Bool-cases (hits old a)) [
      | inl hit ↦
          let tag : get_tag old ≡ page_of a = ground (arith, hit) in
          let valid : is_valid old ≡ true = ground (arith, hit) in
          let placed = c.placed index (index_small vaddr) valid in
          let e = word_of_tag index a (index_small vaddr) placed inside at tag in
          ap (word flushed) e
          ∙ flush_lem.2.1 valid (a / 4 % 4) (omega arith)
          ∙ sym (
              value_at index a at
              ∙ ap (λ (t : Bool). if t then old.words (swapped (a / 4 % 4)) else word s a) hit)
      | inr no_hit ↦
          flush_lem.2.2 a inside (λ valid k h e.
            let placed = c.placed index (index_small vaddr) valid in
            let tag = (tag_of_word index a (index_small vaddr) placed inside k h e).1 in
            ground (arith, no_hit, valid, tag))
          ∙ sym (
              value_at index a at
              ∙ ap (λ (t : Bool). if t then old.words (swapped (a / 4 % 4)) else word s a) no_hit)
    ]

    pub flushed_far : (a : ℕ) → InRam a → dcache_index a ≢ index → word flushed a ≡ word s a
    flushed_far a inside far = flush_lem.2.2 a inside λ valid k h e.
        let placed = c.placed index (index_small vaddr) valid in
        far (tag_of_word index a (index_small vaddr) placed inside k h e).0
