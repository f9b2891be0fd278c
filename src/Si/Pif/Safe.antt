-- ===== src/Si/Pif/Safe.antt =====
-- `pif_process` on whole command buffers.
use cen.Base.{
  ℕ, ◌+◌, ◌^◌, ◌≤◌, ◌<◌, ◌≡◌, ◌≢◌, ◌⊎◌, inl, inr, refl, ◌∙◌, sym, bit_and, ◌==◌, Bytes, update,
  arith, Bool-cases,
}
use cen.Si.Rtc.{TimeStamp}
use cen.Si.Pak.{pak_transfer}
use cen.Si.Pak.Transfer.{start, Reaches-trans, Breaks, Breaks-later}
use cen.Si.Pif.{SiController, Outcome, Turn, undefined, done, fault, pif_loop, pif_process, finish}
use cen.Si.Pif.Loop.{
  turn, loop, process, Plugged, Ended, loop_rule, Wraps, pif_turn-Wraps, turn_undefined, turn_keeps,
}

module _ (get_local_time : ℕ → TimeStamp) (get_offset_seconds : TimeStamp → ℕ) where
  abbrev turns : Bytes → SiController → ℕ → ℕ → Turn
  turns = turn get_local_time get_offset_seconds

  abbrev processes : Bytes → SiController → Outcome
  processes = process get_local_time get_offset_seconds

  -- The command buffer is the one at the start, RAM is changed in its 64 bytes only, and the paks
  -- are those of the start.
  abbrev Kept : SiController → SiController → ℕ → Type 0
  Kept before s ptr =
      (s.command ≡ before.command)
      × ((i : ℕ) → 0x40 ≤ i → s.ram i ≡ before.ram i)
      × Plugged before s

  ends :
      (junk : Bytes) (before : SiController)
      → Ended get_local_time get_offset_seconds
          (Kept before)
          junk
          (loop get_local_time get_offset_seconds 0x40 junk before 0 0)
  ends junk before =
      loop_rule get_local_time get_offset_seconds (Kept before) junk
        (λ s s' channel ptr channel' ptr' (command, ram, plugged) below e.
          let kept =
            turn_keeps get_local_time get_offset_seconds junk s s' channel ptr channel' ptr' e in
          (
            kept.0 ∙ command,
            λ i le. kept.1 i le ∙ ram i le,
            λ k. ((kept.2 k).0 ∙ (plugged k).0, Reaches-trans (plugged k).1 (kept.2 k).1),
          ))
        0x40 before 0 0 (omega arith) (omega arith) (refl, λ i le. refl, λ k. (refl, start))

  -- `pif_process` ends on every command buffer of bytes: it returns with no byte of RAM from 0x40
  -- on changed, or the run is undefined in C, for one of two reasons. Somewhere in the buffer 1 to
  -- 0x3F bytes are sent with a receive length that is negative as an int8_t, not -2, and wraps the
  -- bound test; or a channel up to 3 has a transfer pak, and a read or write of its Game Boy
  -- cartridge, after some writes to it, is undefined.
  pub pif_process_ends :
      (junk : Bytes) (s : SiController)
      → ((i : ℕ) → s.command i < 256)
      → ((s' : SiController) × (processes junk s ≡ done s')
          × ((i : ℕ) → 0x40 ≤ i → s'.ram i ≡ s.ram i))
        ⊎ ((processes junk s ≡ fault)
            × (((ptr : ℕ) × Wraps s.command ptr)
                ⊎ ((channel : ℕ) × (channel ≤ 3)
                    × ((s.controller channel).pak ≡ pak_transfer)
                    × Breaks (s.controller channel).cart)))
  unfolding pif_process
  pif_process_ends junk s bytes = elim (Bool-cases (s.command 0x3F == 0x1)) [
    | inr off ↦ inl (s, rw off, λ i le. refl)
    | inl on ↦ elim (ends junk s) [
      | inl (s', ptr, e, h) ↦ inl (
        record s' { ram = update s'.ram 0x3F (bit_and (s'.ram 0x3F) 0x7F) },
        rw (on, e, finish),
        λ i le. ground (arith, h.1 i le),
      )
      | inr (e, s', channel, ptr, h, below, u) ↦ inr (
        rw (on, e, finish),
        elim (turn_undefined get_local_time get_offset_seconds junk s' channel ptr
            (rw (h.0) (bytes ptr)) (rw (h.0) (bytes (ptr + 1))) u) [
              | inl wraps ↦ inl (ptr, rw (h.0) at wraps)
              | inr (port, (is_transfer, breaks)) ↦ inr (
                channel,
                port,
                sym (h.2 channel).0 ∙ is_transfer,
                Breaks-later (h.2 channel).1 breaks,
              )
            ],
      )
    ]
  ]

  -- A marked buffer is undefined in C if its first command sends 1 to 0x3E bytes and asks for a
  -- number of bytes that is negative, not -2, and at least minus the bytes before.
  pub pif_process_faults :
      (junk : Bytes) (s : SiController)
      → s.command 0x3F ≡ 0x1
      → 0 < s.command 0
      → s.command 0 < 0x3F
      → 0x80 ≤ s.command 1
      → s.command 1 < 256
      → s.command 1 ≢ 0xFE
      → 2 ^ 8 ≤ 2 + s.command 0 + s.command 1
      → processes junk s ≡ fault
  unfolding pif_process pif_loop
  pif_process_faults junk s on pos small neg byte ne wraps =
      let u : turns junk s 0 0 ≡ undefined =
        pif_turn-Wraps get_local_time get_offset_seconds junk s 0 0 byte
          (pos, omega arith, neg, ne, omega arith, omega arith) in
      rw (on, u, pif_loop)
