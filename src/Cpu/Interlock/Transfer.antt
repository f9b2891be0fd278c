-- ===== src/Cpu/Interlock/Transfer.antt =====
-- The memory that the caches work on, by its laws, and the transfer of a line of four words.
use cen.Base.{
  ℕ, zero, suc, ◌+◌, ◌-◌, ◌*◌, ◌%◌, ◌^◌, ◌≤◌, ◌<◌, ◌≡◌, ◌≢◌, inl, inr, refl, sym, ◌∙◌, ap, Option,
  some, Bool-cases, ◌==◌, ==_iff, u32, update, arith, ◌>>=◌,
}
use cen.Cpu.Cache.{Line}
use cen.Cpu.Machine.{BusOps}
use cen.Cpu.Interlock.{swapped, write_line, read_line}

-- An aligned word below 8 MB.
pub record InRam (a : ℕ) : Type 0 where
  pub aligned : a % 4 ≡ 0
  pub below : a + 4 ≤ 0x800000

-- A bus that has memory below 8 MB.
pub record Memory (S : Type 0) (b : BusOps S) : Type 1 where
  pub Valid : S → Type 0
  pub word : S → ℕ → ℕ
  pub word_small : (s : S) (a : ℕ) → Valid s → word s a < 2 ^ 32
  pub read_lem : (s : S) (a : ℕ) → Valid s → InRam a → b.read_word s a ≡ some (word s a, s)
  pub write_lem :
      (s : S) (a w : ℕ)
      → Valid s
      → InRam a
      → w < 2 ^ 32
      → (s' : S) × (b.write_word s a w (2 ^ 32 - 1) ≡ some s')
        × Valid s'
        × (word s' a ≡ w)
        × ((c : ℕ) → InRam c → c ≢ a → word s' c ≡ word s c)

module _ {S : Type 0} {b : BusOps S} (mem : Memory S b) where
  open mem use {Valid, word, read_lem, write_lem}

  in_line : (base i : ℕ) → base % 16 ≡ 0 → base + 16 ≤ 0x800000 → i < 4 → InRam (base + i * 4)
  in_line base i aligned below small = record { aligned = omega arith; below = omega arith }

  -- What a line that was written back leaves in memory.
  abbrev pub Written : S → S → ℕ → Line → ℕ → Type 0
  Written s s' base line from =
      Valid s'
      × ((i : ℕ) → from ≤ i → i < 4 → word s' (base + i * 4) ≡ line.words (swapped i))
      × ((c : ℕ) → InRam c → ((i : ℕ) → from ≤ i → i < 4 → c ≢ base + i * 4) → word s' c ≡ word s c)

  write_from :
      (left i : ℕ) (s : S) (base : ℕ) (line : Line)
      → i + left ≡ 4
      → Valid s
      → base % 16 ≡ 0
      → base + 16 ≤ 0x800000
      → ((k : ℕ) → line.words k < 2 ^ 32)
      → (s' : S) × (write_line b i left s base line ≡ some s') × Written s s' base line i
  unfolding write_line
  write_from zero i s base line whole valid aligned below small =
      (s, refl, (valid, λ j from to. absurd (omega arith), λ c inside other. refl))
  write_from (suc left) i s base line whole valid aligned below small =
      let at = in_line base i aligned below (omega arith) in
      let plain : u32 (base + i * 4) ≡ base + i * 4 = omega arith in
      let w = write_lem s (base + i * 4) (line.words (swapped i)) valid at (small (swapped i)) in
      let rest = write_from left (i + 1) w.0 base line (omega arith) w.2 aligned below small in
      (
        rest.0,
        ap
              (λ (a : ℕ). b.write_word s a (line.words (swapped i)) (2 ^ 32 - 1) >>= λ s1.
                write_line b (suc i) left s1 base line)
              plain
            ∙ ap (λ (o : Option S). o >>= λ s1. write_line b (suc i) left s1 base line) w.1
            ∙ ap (λ (j : ℕ). write_line b j left w.0 base line) (omega arith)
            ∙ rest.1,
        (
          rest.2.0,
          λ j from to. elim (Bool-cases (j == i)) [
            | inl same ↦
                let e : j ≡ i = (==_iff j i).0 same in
                ap (λ (t : ℕ). word rest.0 (base + t * 4)) e
                ∙ rest.2.2 (base + i * 4) at (λ k above small'. omega arith)
                ∙ w.3
                ∙ ap (λ (t : ℕ). line.words (swapped t)) (sym e)
            | inr other ↦ rest.2.1 j (ground (arith, other)) to
          ],
          λ c inside other.
              rest.2.2 c inside (λ k above small'. other k (omega arith) small')
              ∙ w.4 c inside (other i (omega arith) (omega arith)),
        ),
      )

  -- Four writes put a line back, and leave all other words.
  pub write_line_lem :
      (s : S) (base : ℕ) (line : Line)
      → Valid s
      → base % 16 ≡ 0
      → base + 16 ≤ 0x800000
      → ((k : ℕ) → line.words k < 2 ^ 32)
      → (s' : S) × (write_line b 0 4 s base line ≡ some s') × Written s s' base line 0
  write_line_lem s base line valid aligned below small =
      write_from 4 0 s base line refl valid aligned below small

  read_step :
      (i left : ℕ) (s : S) (base : ℕ) (words : ℕ → ℕ)
      → Valid s
      → base % 16 ≡ 0
      → base + 16 ≤ 0x800000
      → i < 4
      → read_line b swapped i (suc left) s base words
        ≡ read_line b swapped (suc i) left s base (update words (swapped i) (word s (base + i * 4)))
  unfolding read_line
  read_step i left s base words valid aligned below small =
      let at = in_line base i aligned below small in
      let plain : u32 (base + i * 4) ≡ base + i * 4 = omega arith in
      let rest =
        λ (r : ℕ × S). read_line b swapped (suc i) left r.1 base (update words (swapped i) r.0) in
      ap (λ (a : ℕ). b.read_word s a >>= rest) plain
      ∙ ap (λ (o : Option (ℕ × S)). o >>= rest) (read_lem s (base + i * 4) valid at)

  -- The words of a line that was filled.
  abbrev pub line_words : S → ℕ → ℕ → ℕ
  line_words s base =
      update
        (update (update (update (λ i. 0) 1 (word s (base + 0 * 4))) 0 (word s (base + 1 * 4))) 3
          (word s (base + 2 * 4)))
        2 (word s (base + 3 * 4))

  pub read_line_lem :
      (s : S) (base : ℕ)
      → Valid s
      → base % 16 ≡ 0
      → base + 16 ≤ 0x800000
      → read_line b swapped 0 4 s base (λ i. 0) ≡ some (line_words s base, s)
  unfolding read_line
  read_line_lem s base valid aligned below =
      read_step 0 3 s base _ valid aligned below (omega arith)
      ∙ read_step 1 2 s base _ valid aligned below (omega arith)
      ∙ read_step 2 1 s base _ valid aligned below (omega arith)
      ∙ read_step 3 0 s base _ valid aligned below (omega arith)

  pub line_words_at :
      (s : S) (base k : ℕ) → k < 4 → line_words s base (swapped k) ≡ word s (base + k * 4)
  line_words_at s base zero h = refl
  line_words_at s base (suc zero) h = refl
  line_words_at s base (suc (suc zero)) h = refl
  line_words_at s base (suc (suc (suc zero))) h = refl
  line_words_at s base (suc (suc (suc (suc k)))) h = absurd (omega arith)

  pub line_words_small : (s : S) (base k : ℕ) → Valid s → line_words s base k < 2 ^ 32
  line_words_small s base k valid =
      let small = mem.word_small s in
      ground (
        arith,
        small (base + 0 * 4) valid,
        small (base + 1 * 4) valid,
        small (base + 2 * 4) valid,
        small (base + 3 * 4) valid,
      )
