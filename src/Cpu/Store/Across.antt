-- ===== src/Cpu/Store/Across.antt =====
-- SWL at an address and SWR three bytes further store the low word of a register between them.
use cen.Base.{
  ℕ, zero, suc, ◌+◌, ◌-◌, ◌*◌, ◌/◌, ◌%◌, ◌^◌, ◌≤◌, ◌<◌, ◌≡◌, refl, ◌∙◌, ap, Option, some, true,
  false, bit_and, has, u32, load_be, IsBytes, arith, ◌>>>◌, ◌<<<◌,
}
use cen.Bus.{Handler}
use cen.Bus.Map.{MemoryMap}
use cen.Ri.{RiController, read_rdram}
use cen.Cpu.State.{Vr4300}
use cen.Cpu.Words.{shl64}
use cen.Cpu.Memory.{address_of, swl_swr}
use cen.Cpu.Store.Unaligned.{store, pair}

-- What SWL and SWR ask for at an offset.
swl_lem :
    (c : Vr4300) (iw rs rt k : ℕ)
    → has (iw >>> 28) 0x1 ≡ false
    → bit_and (address_of iw rs) 0x3 ≡ k
    → ((swl_swr c iw rs rt).1.request.data_mask ≡ rt >>> (k <<< 3))
      × ((swl_swr c iw rs rt).1.request.wdqm ≡ (2 ^ 32 - 1) >>> (k <<< 3))
unfolding swl_swr
swl_lem c iw rs rt k is_swl offset = rw (is_swl, offset) (refl, refl)

swr_lem :
    (c : Vr4300) (iw rs rt k : ℕ)
    → has (iw >>> 28) 0x1 ≡ true
    → bit_and (address_of iw rs) 0x3 ≡ k
    → ((swl_swr c iw rs rt).1.request.data_mask ≡ shl64 rt ((3 - k) <<< 3))
      × ((swl_swr c iw rs rt).1.request.wdqm ≡ u32 ((2 ^ 32 - 1) <<< ((3 - k) <<< 3)))
unfolding swl_swr
swr_lem c iw rs rt k is_swr offset = rw (is_swr, offset) (refl, refl)

module _ (m : MemoryMap Handler)
    (on_write : Handler → RiController → ℕ → ℕ → ℕ → Option RiController) (c : Vr4300)
    (ri : RiController) (left right rs rt q : ℕ) where
  -- Two words of RDRAM, as one number.
  abbrev Stored : ℕ → Type 0
  Stored k =
      (ri1 : RiController) × (ri2 : RiController) × (w0 : ℕ) × (w1 : ℕ) × (store m on_write ri
          (swl_swr c left rs rt).1.request (q + k)
        ≡ some ri1)
      × (store m on_write ri1 (swl_swr c right rs rt).1.request (q + k + 3) ≡ some ri2)
      × (read_rdram ri2 q ≡ some w0)
      × (read_rdram ri2 (q + 4) ≡ some w1)
      × (w0 * 2 ^ 32 + w1
          ≡ load_be ri.ram q / 2 ^ (32 - 8 * k) * 2 ^ (64 - 8 * k)
            + u32 rt * 2 ^ (32 - 8 * k)
            + load_be ri.ram (q + 4) % 2 ^ (32 - 8 * k))

  module _ (bytes : IsBytes ri.ram) (aligned : q % 4 ≡ 0) (inside : q + 8 ≤ 0x00800000)
      (is_swl : has (left >>> 28) 0x1 ≡ false) (is_swr : has (right >>> 28) 0x1 ≡ true) where
    across_1 :
        bit_and (address_of left rs) 0x3 ≡ 1 → bit_and (address_of right rs) 0x3 ≡ 0 → Stored 1
    unfolding swl_swr
    across_1 at_left at_right =
        let l = swl_lem c left rs rt 1 is_swl at_left in
        let r = swr_lem c right rs rt 0 is_swr at_right in
        let p =
          pair m on_write ri (swl_swr c left rs rt).1.request (swl_swr c right rs rt).1.request q 1
            0 24 bytes aligned (omega arith) (omega arith) inside (omega arith) refl refl
            (ap u32 l.1) (ap u32 r.1) in
        let e : q + 1 + 3 ≡ q + 4 + 0 = omega arith in
        (
          p.0,
          p.1,
          _,
          _,
          p.2,
          ap (store m on_write p.0 (swl_swr c right rs rt).1.request) e ∙ p.3,
          p.4,
          p.5,
          omega (arith, l.0, r.0),
        )

    across_2 :
        bit_and (address_of left rs) 0x3 ≡ 2 → bit_and (address_of right rs) 0x3 ≡ 1 → Stored 2
    unfolding swl_swr
    across_2 at_left at_right =
        let l = swl_lem c left rs rt 2 is_swl at_left in
        let r = swr_lem c right rs rt 1 is_swr at_right in
        let p =
          pair m on_write ri (swl_swr c left rs rt).1.request (swl_swr c right rs rt).1.request q 2
            1 16 bytes aligned (omega arith) (omega arith) inside (omega arith) refl refl
            (ap u32 l.1) (ap u32 r.1) in
        let e : q + 2 + 3 ≡ q + 4 + 1 = omega arith in
        (
          p.0,
          p.1,
          _,
          _,
          p.2,
          ap (store m on_write p.0 (swl_swr c right rs rt).1.request) e ∙ p.3,
          p.4,
          p.5,
          omega (arith, l.0, r.0),
        )

    across_3 :
        bit_and (address_of left rs) 0x3 ≡ 3 → bit_and (address_of right rs) 0x3 ≡ 2 → Stored 3
    unfolding swl_swr
    across_3 at_left at_right =
        let l = swl_lem c left rs rt 3 is_swl at_left in
        let r = swr_lem c right rs rt 2 is_swr at_right in
        let p =
          pair m on_write ri (swl_swr c left rs rt).1.request (swl_swr c right rs rt).1.request q 3
            2 8 bytes aligned (omega arith) (omega arith) inside (omega arith) refl refl
            (ap u32 l.1) (ap u32 r.1) in
        let e : q + 3 + 3 ≡ q + 4 + 2 = omega arith in
        (
          p.0,
          p.1,
          _,
          _,
          p.2,
          ap (store m on_write p.0 (swl_swr c right rs rt).1.request) e ∙ p.3,
          p.4,
          p.5,
          omega (arith, l.0, r.0),
        )

    -- If RDRAM holds bytes, an SWL at offset k = 1, 2 or 3 of an aligned word and an SWR at offset
    -- k - 1 of the next, both below 8 MB, succeed on the bus. Afterwards the two words hold, from
    -- the top, the k bytes that SWL keeps, the low word of the register, and the bytes that SWR
    -- keeps.
    pub swl_swr-across :
        (k : ℕ)
        → 0 < k
        → k < 4
        → bit_and (address_of left rs) 0x3 ≡ k
        → bit_and (address_of right rs) 0x3 ≡ k - 1
        → Stored k
    swl_swr-across zero pos below at_left at_right = absurd (omega arith)
    swl_swr-across (suc zero) pos below at_left at_right = across_1 at_left at_right
    swl_swr-across (suc (suc zero)) pos below at_left at_right = across_2 at_left at_right
    swl_swr-across (suc (suc (suc zero))) pos below at_left at_right = across_3 at_left at_right
    swl_swr-across (suc (suc (suc (suc k)))) pos below at_left at_right = absurd (omega arith)
