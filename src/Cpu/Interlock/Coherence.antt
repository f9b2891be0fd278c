-- ===== src/Cpu/Interlock/Coherence.antt =====
-- The exchange of a line keeps the data cache coherent with memory, and what the processor sees.
use cen.Base.{
  ℕ, ◌+◌, ◌*◌, ◌/◌, ◌%◌, ◌^◌, ◌<◌, ◌≡◌, ◌≢◌, inl, inr, refl, sym, subst, ◌∙◌, ap, Option, none,
  some, Bool, true, false, Bool-cases, ◌==◌, ==_iff, if◌then◌else◌, not32, bit_and, bit_and_high,
  arith, ◌>>=◌,
}
use cen.Cpu.Cache.{
  Line, Lines, page_of, get_tag, is_valid, is_dirty, hits, filled, dcache_index, get_line,
  dcache_fill, dcache_probe,
}
use cen.Cpu.Machine.{BusOps, Machine}
use cen.Cpu.Interlock.{
  swapped, read_line, replace_line, dcm, dcm_cached, interlocked, dcache_access_delay,
}
use cen.Cpu.Interlock.Transfer.{
  InRam, Memory, read_line_lem, line_words, line_words_at, line_words_small,
}
use cen.Cpu.Interlock.Flush
use cen.Cpu.Interlock.Flush.{
  index_lem, page_lem, filled_lem, line_address, IsPlaced, Coherent, value, flush_lem, flushed_word,
  flushed_far, tag_lem, tag_of_word,
}

module _ {S : Type 0} {b : BusOps S} (mem : Memory S b) where
  open mem use {Valid, word}

  module _ (dcache : Lines) (s : S) (vaddr : ℕ) (c : Coherent mem dcache s) where
    abbrev old : Line
    old = get_line dcache vaddr

    abbrev index : ℕ
    index = dcache_index vaddr

    abbrev flushed : S
    flushed = Flush.flushed mem dcache s vaddr c

    module _ (paddr : ℕ) (direct : vaddr % 8192 ≡ paddr % 8192) (below : paddr < 0x800000) where
      abbrev base : ℕ
      base = paddr / 16 * 16

      abbrev replaced : Lines
      replaced = dcache_fill dcache vaddr base (line_words mem flushed base)

      replace_lem : replace_line b s dcache vaddr paddr ≡ some (replaced, flushed)
      unfolding replace_line
      replace_lem =
          let line : bit_and paddr (not32 0xF) ≡ base =
            bit_and_high 32 4 paddr (omega arith) (omega arith) in
          let fill : ℕ → (ℕ → ℕ) × S → Option (Lines × S) =
            λ p r. some (dcache_fill dcache vaddr p r.0, r.1) in
          ap
            (λ (o : Option S). o >>= λ s1.
              read_line b swapped 0 4 s1 (bit_and paddr (not32 0xF)) (λ i. 0)
              >>= fill (bit_and paddr (not32 0xF)))
            (flush_lem mem dcache s vaddr c).1
          ∙ ap (λ (p : ℕ). read_line b swapped 0 4 flushed p (λ i. 0) >>= fill p) line
          ∙ ap (λ (o : Option ((ℕ → ℕ) × S)). o >>= fill base)
              (read_line_lem mem flushed base (flush_lem mem dcache s vaddr c).2.0 (omega arith)
                (omega arith))

      abbrev new : Line
      new = filled old base (line_words mem flushed base)

      new_lem :
          (new.metadata < 2 ^ 32)
          × (get_tag new ≡ base / 4096 * 4096)
          × (is_valid new ≡ true)
          × (is_dirty new ≡ false)
      new_lem = filled_lem old base (line_words mem flushed base) (omega arith)

      replaced_at : (i : ℕ) → replaced i ≡ (if index == i then new else dcache i)
      unfolding dcache_fill
      replaced_at i = refl

      -- A word at the index: the new line holds what memory holds.
      value_here :
          (a : ℕ) → InRam a → dcache_index a ≡ index → value mem replaced flushed a ≡ word flushed a
      value_here a inside at =
          let same : (index == dcache_index a) ≡ true = ground (arith, at) in
          let here : replaced (dcache_index a) ≡ new =
            replaced_at (dcache_index a)
            ∙ ap (λ (t : Bool). if t then new else dcache (dcache_index a)) same in
          ap (λ (l : Line). if hits l a then l.words (swapped (a / 4 % 4)) else word flushed a) here
          ∙ elim (Bool-cases (hits new a)) [
            | inr no_hit ↦
                ap (λ (t : Bool). if t then new.words (swapped (a / 4 % 4)) else word flushed a)
                  no_hit
            | inl hit ↦
                let tag : get_tag new ≡ page_of a = ground (arith, hit) in
                let page = page_lem a (omega (arith, inside.below)) in
                let e : base + a / 4 % 4 * 4 ≡ a = omega (
                  arith,
                  new_lem.1,
                  tag,
                  page,
                  at,
                  index_lem a,
                  index_lem vaddr,
                  direct,
                  inside.aligned,
                ) in
                ap (λ (t : Bool). if t then new.words (swapped (a / 4 % 4)) else word flushed a) hit
                ∙ line_words_at mem flushed base (a / 4 % 4) (omega arith)
                ∙ ap (word flushed) e
          ]

      -- A word elsewhere: neither its line nor its memory has changed.
      value_far :
          (a : ℕ)
          → InRam a
          → dcache_index a ≢ index
          → value mem replaced flushed a ≡ value mem dcache s a
      value_far a inside far =
          let other : (index == dcache_index a) ≡ false = ground (arith, far) in
          let there : replaced (dcache_index a) ≡ dcache (dcache_index a) =
            replaced_at (dcache_index a)
            ∙ ap (λ (t : Bool). if t then new else dcache (dcache_index a)) other in
          ap (λ (l : Line). if hits l a then l.words (swapped (a / 4 % 4)) else word flushed a)
            there
          ∙ ap
              (λ (w : ℕ).
                if hits (dcache (dcache_index a)) a
                then (dcache (dcache_index a)).words (swapped (a / 4 % 4))
                else w)
              ((flushed_far mem dcache s vaddr c) a inside far)

      value-replaced : (a : ℕ) → InRam a → value mem replaced flushed a ≡ value mem dcache s a
      value-replaced a inside = elim (Bool-cases (dcache_index a == index)) [
        | inl same ↦
            let at = (==_iff (dcache_index a) index).0 same in
            value_here a inside at ∙ (flushed_word mem dcache s vaddr c) a inside at
        | inr other ↦ value_far a inside (λ e. ground (arith, other, e))
      ]

      -- What the new line, and any other line, agree with.
      new-IsPlaced : IsPlaced mem flushed index new
      new-IsPlaced = record {
        words_small = λ k. line_words_small mem flushed base k (flush_lem mem dcache s vaddr c).2.0;
        in_ram = omega (arith, new_lem.1);
        at_index = omega (arith, new_lem.1, index_lem vaddr, direct);
        clean = λ is_clean k h.
            line_words_at mem flushed base k h
            ∙ ap (λ (a : ℕ). word flushed (a + k * 4))
                (omega (arith, new_lem.1, index_lem vaddr, direct));
      }

      other-IsPlaced :
          (i : ℕ)
          → i < 512
          → i ≢ index
          → IsPlaced mem s i (dcache i)
          → IsPlaced mem flushed i (dcache i)
      other-IsPlaced i small far placed = record {
        words_small = placed.words_small;
        in_ram = placed.in_ram;
        at_index = placed.at_index;
        clean = λ is_clean k h.
            let a = line_address i (dcache i) + k * 4 in
            let inside : InRam a = record {
              aligned = omega (arith, (tag_lem mem dcache s vaddr c) i);
              below = omega (arith, placed.in_ram);
            } in
            let at = ((tag_of_word mem dcache s vaddr c) i a small placed inside k h refl).0 in
            placed.clean is_clean k h
            ∙ sym ((flushed_far mem dcache s vaddr c) a inside (λ e. far (sym at ∙ e)));
      }

      replaced-Coherent : Coherent mem replaced flushed
      replaced-Coherent = record {
        valid = (flush_lem mem dcache s vaddr c).2.0;
        small = λ i. rw (replaced_at i) (ground (arith, new_lem.0, c.small i));
        placed = λ i small valid. elim (Bool-cases (index == i)) [
          | inl here ↦
              let e : replaced i ≡ new =
                replaced_at i ∙ ap (λ (t : Bool). if t then new else dcache i) here in
              subst (IsPlaced mem flushed i) (sym e)
                (subst (λ j. IsPlaced mem flushed j new) ((==_iff index i).0 here) new-IsPlaced)
          | inr other ↦
              let e : replaced i ≡ dcache i =
                replaced_at i ∙ ap (λ (t : Bool). if t then new else dcache i) other in
              subst (IsPlaced mem flushed i) (sym e) (
                other-IsPlaced i small (λ same. ground (arith, other, same))
                  (c.placed i small (ap is_valid (sym e) ∙ valid)))
        ];
      }

      replaced-hit : dcache_probe replaced vaddr paddr ≡ some new
      unfolding dcache_probe
      replaced-hit =
          let self : (index == index) ≡ true = ground arith in
          let e : replaced index ≡ new =
            replaced_at index ∙ ap (λ (t : Bool). if t then new else dcache index) self in
          let tag : get_tag new ≡ page_of paddr =
            new_lem.1 ∙ omega arith ∙ sym (page_lem paddr (omega arith)) in
          let found : hits new paddr ≡ true = ground (arith, tag, new_lem.2) in
          ap (λ (l : Line). if hits l paddr then some l else none) e
          ∙ ap (λ (t : Bool). if t then some new else none) found

  -- The exchange of the line, as one statement.
  pub replace_line-Coherent :
      (dcache : Lines) (s : S) (vaddr paddr : ℕ)
      → Coherent mem dcache s
      → vaddr % 8192 ≡ paddr % 8192
      → paddr < 0x800000
      → (dcache' : Lines) × (s' : S) × (line : Line) × (replace_line b s dcache vaddr paddr
          ≡ some (dcache', s'))
        × Coherent mem dcache' s'
        × (dcache_probe dcache' vaddr paddr ≡ some line)
        × ((a : ℕ) → InRam a → value mem dcache' s' a ≡ value mem dcache s a)
  replace_line-Coherent dcache s vaddr paddr c direct below = (
    replaced dcache s vaddr c paddr direct below,
    flushed dcache s vaddr c,
    new dcache s vaddr c paddr direct below,
    replace_lem dcache s vaddr c paddr direct below,
    replaced-Coherent dcache s vaddr c paddr direct below,
    replaced-hit dcache s vaddr c paddr direct below,
    value-replaced dcache s vaddr c paddr direct below,
  )

  with_cache : (m : Machine S) → m.exdc_cached ≡ true → dcm b m ≡ dcm_cached b m
  unfolding dcm
  with_cache m cached = simp (cached, dcm)

  -- VR4300_DCM for a cached address below 8 MB, at the index of its physical address, with a
  -- coherent cache: it returns, and stalls for 44 cycles before the DC stage is repeated. The
  -- cache is coherent with memory again, the address hits, and no word of RDRAM, as the processor
  -- sees it through the cache, has changed.
  pub dcm-Coherent :
      (m : Machine S)
      → m.exdc_cached ≡ true
      → Coherent mem m.dcache m.bus
      → m.cpu.request.vaddr % 8192 ≡ m.request_paddr % 8192
      → m.request_paddr < 0x800000
      → (m' : Machine S) × (line : Line) × (dcm b m ≡ some m')
        × (m'.cpu ≡ interlocked m.cpu dcache_access_delay 1)
        × Coherent mem m'.dcache m'.bus
        × (dcache_probe m'.dcache m.cpu.request.vaddr m.request_paddr ≡ some line)
        × ((a : ℕ) → InRam a → value mem m'.dcache m'.bus a ≡ value mem m.dcache m.bus a)
  unfolding dcm_cached
  dcm-Coherent m cached c direct below =
      let r =
        replace_line-Coherent m.dcache m.bus m.cpu.request.vaddr m.request_paddr c direct below in
      let after : Lines × S → Machine S =
        λ p. record m { cpu = interlocked m.cpu dcache_access_delay 1; bus = p.1; dcache = p.0 } in
      (
        after (r.0, r.1),
        r.2,
        with_cache m cached ∙ ap (λ (o : Option (Lines × S)). o >>= λ p. some (after p)) r.3,
        refl,
        r.4,
        r.5,
        r.6,
      )
