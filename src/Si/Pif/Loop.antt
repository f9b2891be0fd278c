-- ===== src/Si/Pif/Loop.antt =====
-- The loop of `pif_process`: it ends, what a turn leaves of the state, and when it is undefined.
use cen.Base.{
  ℕ, zero, suc, ◌+◌, ◌^◌, ◌≤◌, ◌<◌, ◌≡◌, ◌≢◌, ◌⊎◌, inl, inr, refl, ◌∙◌, ap, false, bit_and_high,
  ltb, ◌==◌, not, ◌||◌, Option, none, some, Bytes, copy, update, Bool-cases, ==_iff, sym, ltb→lt,
  arith,
}
use cen.Si.Rtc.{TimeStamp}
use cen.Si.Pak.{Controller}
use cen.Si.Pak.Transfer.{Reaches, start, Undone, Served, pak_read-Served, pak_write-Served}
use cen.Si.Pif.{
  SiController, Answer, Turn, Outcome, stop, next, undefined, done, fault, pif_turn, pif_loop,
  pif_process, pif_perform_command, pif_status_command, pif_read_controller, pif_cart_command,
  of_pak, answered,
}

-- What a run leaves of the channels: the kind of the pak, and the cartridge after some writes.
abbrev pub Plugged : SiController → SiController → Type 0
Plugged s s' =
    (k : ℕ)
    → ((s'.controller k).pak ≡ (s.controller k).pak)
      × Reaches (s.controller k).cart (s'.controller k).cart

-- A command leaves the PIF's buffers and the paks, or it is undefined, by an access to the
-- cartridge of a transfer pak.
abbrev pub Commanded : SiController → ℕ → Option Answer → Type 0
Commanded s channel o =
    ((o ≡ none) × (channel ≤ 3) × Undone (s.controller channel))
    ⊎ ((a : Answer) × (o ≡ some a)
        × (a.si.command ≡ s.command)
        × (a.si.ram ≡ s.ram)
        × Plugged s a.si)

of_pak-Commanded :
    (s : SiController) (channel : ℕ) (o : Option (Controller × Bytes))
    → ltb 3 channel ≡ false
    → Served (s.controller channel) o
    → Commanded s channel (of_pak s channel o)
unfolding of_pak
of_pak-Commanded s channel o le (inl (e, u)) = rw e (inl (refl, ground arith, u))
of_pak-Commanded s channel o le (inr (c, bytes, e, pak, r)) =
    rw e (inr (_, refl, refl, refl, plugged))
  where
    plugged : Plugged s (record s { controller = update s.controller channel c })
    plugged k = elim (Bool-cases (channel == k)) [
      | inl this ↦ rw (this, sym ((==_iff channel k).0 this)) (pak, r)
      | inr other ↦ rw other (refl, start)
    ]

same-Commanded :
    (s : SiController) (channel : ℕ) (a : Answer)
    → (a.si.command ≡ s.command) × (a.si.ram ≡ s.ram) × (a.si.controller ≡ s.controller)
    → Commanded s channel (some a)
same-Commanded s channel a (e, e', same) = inr (a, refl, e, e', λ k. rw same (refl, start))

Turn-cases :
    (t : Turn)
    → ((s : SiController) × (t ≡ stop s))
      ⊎ (((s : SiController) × (channel : ℕ) × (ptr : ℕ) × (t ≡ next s channel ptr))
          ⊎ (t ≡ undefined))
Turn-cases (stop s) = inl (s, refl)
Turn-cases (next s channel ptr) = inr (inl (s, channel, ptr, refl))
Turn-cases undefined = inr (inr refl)

-- A command at a place that sends 1 to 0x3F bytes, which fit the buffer, with a receive length that
-- is negative as an int8_t, not -2, and makes the sum of the lengths wrap back.
abbrev pub Wraps : Bytes → ℕ → Type 0
Wraps command ptr =
    (0 < command ptr)
    × (command ptr < 0x40)
    × (0x80 ≤ command (ptr + 1))
    × (command (ptr + 1) ≢ 0xFE)
    × (ptr + 2 + command ptr ≤ 0x40)
    × (2 ^ 8 ≤ ptr + 2 + command ptr + command (ptr + 1))

module _ (get_local_time : ℕ → TimeStamp) (get_offset_seconds : TimeStamp → ℕ) where
  abbrev pub turn : Bytes → SiController → ℕ → ℕ → Turn
  turn = pif_turn get_local_time get_offset_seconds

  abbrev pub loop : ℕ → Bytes → SiController → ℕ → ℕ → Outcome
  loop = pif_loop get_local_time get_offset_seconds

  abbrev pub process : Bytes → SiController → Outcome
  process = pif_process get_local_time get_offset_seconds

  abbrev pub perform : SiController → ℕ → Bytes → Bytes → ℕ → Option Answer
  perform = pif_perform_command get_local_time get_offset_seconds

  cart-Commanded :
      (s : SiController) (channel : ℕ) (send recv : Bytes) (n : ℕ)
      → Commanded s channel
          (some (pif_cart_command get_local_time get_offset_seconds s send recv n))
  unfolding pif_cart_command
  cart-Commanded s channel send recv n = same-Commanded s channel _ (ground arith)

  perform-Commanded :
      (s : SiController) (channel : ℕ) (send recv : Bytes) (n : ℕ)
      → Commanded s channel (perform s channel send recv n)
  unfolding pif_perform_command pif_status_command pif_read_controller
  perform-Commanded s channel send recv n = elim (Bool-cases (send 0 == 0x00 || send 0 == 0xFF)) [
    | inl status ↦ rw status (same-Commanded s channel _ (ground arith))
    | inr n1 ↦ elim (Bool-cases (send 0 == 0x01)) [
      | inl buttons ↦ rw (n1, buttons) (same-Commanded s channel _ (ground arith))
      | inr n2 ↦ elim (Bool-cases (send 0 == 0x02)) [
        | inl read ↦ elim (Bool-cases (ltb 3 channel)) [
          | inl past ↦ rw (n1, n2, read, past) refuses
          | inr port ↦
              rw (n1, n2, read, port)
                (of_pak-Commanded s channel _ port
                  (pak_read-Served (s.controller channel) send recv))
        ]
        | inr n3 ↦ elim (Bool-cases (send 0 == 0x03)) [
          | inl write ↦ elim (Bool-cases (ltb 3 channel)) [
            | inl past ↦ rw (n1, n2, n3, write, past) refuses
            | inr port ↦
                rw (n1, n2, n3, write, port)
                  (of_pak-Commanded s channel _ port
                    (pak_write-Served (s.controller channel) send recv))
          ]
          | inr n4 ↦ elim (Bool-cases (not (channel == 4))) [
            | inl no_cart ↦ rw (n1, n2, n3, n4, no_cart) refuses
            | inr cart ↦ rw (n1, n2, n3, n4, cart) (cart-Commanded s channel send recv n)
          ]
        ]
      ]
    ]
  ]
    where
      refuses : Commanded s channel (some (record { code = 1; recv_buf = recv; si = s }))
      refuses = same-Commanded s channel _ (refl, refl, refl)

  turn_stop :
      (junk : Bytes) (s s' : SiController) (channel ptr : ℕ)
      → turn junk s channel ptr ≡ stop s'
      → s' ≡ s
  unfolding pif_turn
  turn_stop junk s s' channel ptr e = ground arith

  turn_advances :
      (junk : Bytes) (s s' : SiController) (channel ptr channel' ptr' : ℕ)
      → turn junk s channel ptr ≡ next s' channel' ptr'
      → ptr < ptr'
  unfolding pif_turn
  turn_advances junk s s' channel ptr channel' ptr' e = ground arith

  -- How a loop ends: with a state that has the property, or at an undefined turn.
  abbrev pub Ended : (SiController → ℕ → Type 0) → Bytes → Outcome → Type 0
  Ended P junk r =
      ((s : SiController) × (ptr : ℕ) × (r ≡ done s) × P s ptr)
      ⊎ ((r ≡ fault)
          × (s : SiController) × (channel : ℕ) × (ptr : ℕ) × P s ptr
          × (ptr < 0x3F)
          × (turn junk s channel ptr ≡ undefined))

  -- A loop with enough fuel is finished or undefined, and finished if no turn is undefined.
  -- `keep` carries a property of the state from turn to turn.
  pub loop_rule :
      (P : SiController → ℕ → Type 0) (junk : Bytes)
      → ((s s' : SiController) (channel ptr channel' ptr' : ℕ)
          → P s ptr
          → ptr < 0x3F
          → turn junk s channel ptr ≡ next s' channel' ptr'
          → P s' ptr')
      → (fuel : ℕ) (s : SiController) (channel ptr : ℕ) → 0 < fuel
      → 0x40 ≤ fuel + ptr
      → P s ptr
      → Ended P junk (loop fuel junk s channel ptr)
  unfolding pif_loop
  loop_rule P junk keep zero s channel ptr pos enough h = absurd (omega arith)
  loop_rule P junk keep (suc fuel) s channel ptr pos enough h = elim (Bool-cases (ltb ptr 0x3F)) [
    | inr past ↦ rw (past, pif_loop) (inl (s, ptr, refl, h))
    | inl below ↦ elim (Turn-cases (turn junk s channel ptr)) [
      | inl (s', e) ↦
          rw (below, e, pif_loop) (inl (s', ptr, refl, rw (turn_stop junk s s' channel ptr e) h))
      | inr (inl (s', channel', ptr', e)) ↦
          let more = turn_advances junk s s' channel ptr channel' ptr' e in
          let lt = ltb→lt ptr 0x3F below in
          rw (below, e, pif_loop)
            (loop_rule P junk keep fuel s' channel' ptr' (omega arith) (omega arith)
              (keep s s' channel ptr channel' ptr' h lt e))
      | inr (inr e) ↦
          rw (below, e, pif_loop) (inr (refl, s, channel, ptr, h, ltb→lt ptr 0x3F below, e))
    ]
  ]

  abbrev sent : Bytes → SiController → ℕ → Bytes
  sent junk s ptr = copy junk 0 s.command (ptr + 1 + 1) (s.command ptr)

  abbrev asked : Bytes → SiController → ℕ → Bytes
  asked junk s ptr = copy junk 0 s.command (ptr + 1 + 1 + s.command ptr) (s.command (ptr + 1))

  abbrev performed : Bytes → SiController → ℕ → ℕ → Option Answer
  performed junk s channel ptr =
      perform s channel (sent junk s ptr) (asked junk s ptr) (s.command (ptr + 1))

  pub pif_turn-Wraps :
      (junk : Bytes) (s : SiController) (channel ptr : ℕ)
      → s.command (ptr + 1) < 256
      → Wraps s.command ptr
      → turn junk s channel ptr ≡ undefined
  unfolding pif_turn
  pif_turn-Wraps junk s channel ptr byte (pos, small, neg, ne, fits, wraps) = ground (
    arith,
    pos,
    small,
    neg,
    ne,
    fits,
    wraps,
    byte,
    bit_and_high 8 6 (s.command ptr) (omega arith) (omega arith),
  )

  -- A turn goes on with the state as it is, or as the answer to a command that fits leaves it.
  turn_answers :
      (junk : Bytes) (s s' : SiController) (channel ptr channel' ptr' : ℕ)
      → turn junk s channel ptr ≡ next s' channel' ptr'
      → (s' ≡ s)
        ⊎ ((ptr + 1 + 1 + s.command ptr + s.command (ptr + 1) ≤ 0x40)
            × (answered get_local_time get_offset_seconds channel
                  (ptr + 1 + 1 + s.command ptr)
                  (s.command (ptr + 1))
                  (performed junk s channel ptr)
                ≡ next s' channel' ptr'))
  unfolding pif_turn
  turn_answers junk s s' channel ptr channel' ptr' e = ground arith

  answer_keeps :
      (s' : SiController) (a : Answer) (channel after n channel' ptr' : ℕ)
      → after + n ≤ 0x40
      → answered get_local_time get_offset_seconds channel after n (some a) ≡ next s' channel' ptr'
      → (s'.command ≡ a.si.command)
        × (s'.controller ≡ a.si.controller)
        × ((i : ℕ) → 0x40 ≤ i → s'.ram i ≡ a.si.ram i)
  unfolding answered
  answer_keeps s' a channel after n channel' ptr' fits e =
      (ground (arith, e), ground (arith, e), λ i le. ground (arith, e, le))

  no_answer_lem :
      (s' : SiController) (channel after n channel' ptr' : ℕ)
      → answered get_local_time get_offset_seconds channel after n none ≢ next s' channel' ptr'
  unfolding answered
  no_answer_lem s' channel after n channel' ptr' e = ground (arith, e)

  -- A turn that is undefined has such a length, or its command is undefined.
  pub turn_undefined :
      (junk : Bytes) (s : SiController) (channel ptr : ℕ)
      → s.command ptr < 256
      → s.command (ptr + 1) < 256
      → turn junk s channel ptr ≡ undefined
      → Wraps s.command ptr ⊎ ((channel ≤ 3) × Undone (s.controller channel))
  unfolding pif_turn answered
  turn_undefined junk s channel ptr small byte e =
      elim (perform-Commanded s channel (sent junk s ptr) (asked junk s ptr)
        (s.command (ptr + 1))) [
          | inl (no_answer, port, u) ↦ inr (port, u)
          | inr (a, given, _, _, _) ↦ inl (
              ground (
                arith,
                given,
                e,
                small,
                byte,
                bit_and_high 8 6 (s.command ptr) (omega arith) small,
              ))
        ]

  -- A turn leaves the command buffer, RAM outside of its 64 bytes, and what is plugged in.
  pub turn_keeps :
      (junk : Bytes) (s s' : SiController) (channel ptr channel' ptr' : ℕ)
      → turn junk s channel ptr ≡ next s' channel' ptr'
      → (s'.command ≡ s.command) × ((i : ℕ) → 0x40 ≤ i → s'.ram i ≡ s.ram i) × Plugged s s'
  turn_keeps junk s s' channel ptr channel' ptr' e =
      elim (turn_answers junk s s' channel ptr channel' ptr' e) [
        | inl same ↦ rw same (refl, λ i le. refl, λ k. (refl, start))
        | inr (fits, given) ↦
            elim (perform-Commanded s channel (sent junk s ptr) (asked junk s ptr)
              (s.command (ptr + 1))) [
                | inl (no_answer, _, _) ↦
                    absurd (no_answer_lem s' channel _ _ channel' ptr' (rw no_answer at given))
                | inr (a, e', command, ram, plugged) ↦
                    let kept = answer_keeps s' a channel _ _ channel' ptr' fits (rw e' at given) in
                    (
                      kept.0 ∙ command,
                      λ i le. kept.2 i le ∙ ap (λ (m : Bytes). m i) ram,
                      λ k. rw (kept.1) (plugged k),
                    )
              ]
      ]
