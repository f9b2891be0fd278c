-- ===== src/Si/Pak/Transfer.antt =====
-- The transfer pak: the writes that a Game Boy cartridge has seen, and when an access is undefined.
use cen.Base.{
  ℕ, zero, suc, ◌+◌, ◌-◌, ◌≡◌, ◌⊎◌, inl, inr, refl, ap, ◌∙◌, sym, Bool, Bool-cases, Option-cases,
  true, false, leb, ◌==◌, ◌&&◌, if◌then◌else◌, Option, none, some, ◌>>=◌, Bytes, u16, update, arith,
}
use cen.Si.Gb.{GbCart, gb_read, gb_write}
use cen.Si.Pak.{
  Controller, PakType, pak_none, pak_mem, pak_rumble, pak_transfer, block_address, gameboy_read,
  gameboy_write, gb_address, transfer_pak_read, transfer_pak_write, pak_bytes, pak_store,
  pak_enable, controller_pak_crc, controller_pak_read, controller_pak_write, mempak_size,
}

-- The cartridges that writes can make of one.
pub data Reaches (cart : GbCart) : GbCart → Type 0 where
  start : Reaches cart cart
  write :
      {c c' : GbCart} (address value : ℕ)
      → Reaches cart c
      → gb_write c address value ≡ some c'
      → Reaches cart c'

pub Reaches-trans : {a b c : GbCart} → Reaches a b → Reaches b c → Reaches a c
Reaches-trans r start = r
Reaches-trans r (write address value r' e) = write address value (Reaches-trans r r') e

-- An access to a cartridge, after some writes to it, that is undefined in C.
abbrev pub Breaks : GbCart → Type 0
Breaks start_cart =
    (cart : GbCart) × (address : ℕ) × Reaches start_cart cart
    × ((gb_read cart address ≡ none) ⊎ ((value : ℕ) × (gb_write cart address value ≡ none)))

pub Breaks-later : {a b : GbCart} → Reaches a b → Breaks b → Breaks a
Breaks-later r (cart, address, r', why) = (cart, address, Reaches-trans r r', why)

gameboy_read-cases :
    (left i : ℕ) (cart : GbCart) (address : ℕ) (buffer : Bytes)
    → gameboy_read left i cart address buffer ≡ none
    → Breaks cart
unfolding gameboy_read
gameboy_read-cases zero i cart address buffer e = absurd (ground (arith, e))
gameboy_read-cases (suc left) i cart address buffer e =
    elim (Option-cases (gb_read cart (u16 (address + i)))) [
      | inl no_byte ↦ (cart, u16 (address + i), start, inl no_byte)
      | inr (value, read) ↦ gameboy_read-cases left (i + 1) cart address (update buffer i value) (
          ap
            (λ (o : Option ℕ).
              o >>= λ v. gameboy_read left (i + 1) cart address (update buffer i v))
            (sym read)
          ∙ e)
    ]

gameboy_write-cases :
    (left i : ℕ) (cart : GbCart) (address : ℕ) (buffer : Bytes)
    → ((gameboy_write left i cart address buffer ≡ none) × Breaks cart)
      ⊎ ((c : GbCart) × (gameboy_write left i cart address buffer ≡ some c) × Reaches cart c)
unfolding gameboy_write
gameboy_write-cases zero i cart address buffer = inr (cart, refl, start)
gameboy_write-cases (suc left) i cart address buffer =
    let rest = λ (o : Option GbCart). o >>= λ c. gameboy_write left (i + 1) c address buffer in
    elim (Option-cases (gb_write cart (u16 (address + i)) (buffer i))) [
      | inl no_cart ↦
          inl (ap rest no_cart, (cart, u16 (address + i), start, inr (buffer i, no_cart)))
      | inr (c, written) ↦
          let step : Reaches cart c = write (u16 (address + i)) (buffer i) start written in
          elim (gameboy_write-cases left (i + 1) c address buffer) [
            | inl (e, breaks) ↦ inl (ap rest written ∙ e, Breaks-later step breaks)
            | inr (c', e, more) ↦ inr (c', ap rest written ∙ e, Reaches-trans step more)
          ]
    ]

-- What a command leaves of a controller: its kind of pak, and its cartridge after some writes; or
-- it is undefined, by an access to the cartridge of a transfer pak.
abbrev pub Undone : Controller → Type 0
Undone c = (c.pak ≡ pak_transfer) × Breaks c.cart

abbrev Stored : Controller → Option Controller → Type 0
Stored c o =
    ((o ≡ none) × Undone c)
    ⊎ ((c' : Controller) × (o ≡ some c') × (c'.pak ≡ c.pak) × Reaches c.cart c'.cart)

abbrev pub Served : Controller → Option (Controller × Bytes) → Type 0
Served c o =
    ((o ≡ none) × Undone c)
    ⊎ ((c' : Controller) × (bytes : Bytes) × (o ≡ some (c', bytes))
        × (c'.pak ≡ c.pak)
        × Reaches c.cart c'.cart)

if-Served :
    (c : Controller) (t : Bool) (x : Controller) (a b : Bytes)
    → x.pak ≡ c.pak
    → Reaches c.cart x.cart
    → Served c (some (if t then (x, a) else (c, b)))
if-Served c true x a b pak r = inr (x, a, refl, pak, r)
if-Served c false x a b pak r = inr (c, b, refl, refl, start)

if-Stored :
    (c : Controller) (t : Bool) (x : Controller)
    → x.pak ≡ c.pak
    → Reaches c.cart x.cart
    → Stored c (some (if t then x else c))
if-Stored c true x pak r = inr (x, refl, pak, r)
if-Stored c false x pak r = inr (c, refl, refl, start)

module _ (c : Controller) (send : Bytes) where
  transfer_read : (recv : Bytes) → c.pak ≡ pak_transfer → Served c (transfer_pak_read c send recv)
  unfolding transfer_pak_read
  transfer_read recv is_transfer = elim (Bool-cases (block_address send == 0x8000)) [
    | inl status ↦ rw status (inr (c, _, refl, refl, start))
    | inr n1 ↦ elim (Bool-cases (block_address send == 0xB000)) [
      | inl mode ↦ rw (n1, mode) (if-Served c c.pak_enabled _ _ recv refl start)
      | inr n2 ↦ elim (Bool-cases (leb 0xC000 (block_address send) && c.pak_enabled)) [
        | inr n3 ↦ rw (n1, n2, n3) (inr (c, recv, refl, refl, start))
        | inl cart ↦
            elim (Option-cases
              (gameboy_read 0x20 0 c.cart (gb_address c (block_address send)) recv)) [
                | inl no_bytes ↦
                    rw (n1, n2, cart)
                      (inl (
                        ap (λ (o : Option Bytes). o >>= λ b. some (c, b)) no_bytes,
                        (is_transfer, gameboy_read-cases 0x20 0 c.cart _ recv no_bytes),
                      ))
                | inr (bytes, e) ↦
                    rw (n1, n2, cart)
                      (inr (
                        c,
                        bytes,
                        ap (λ (o : Option Bytes). o >>= λ b. some (c, b)) e,
                        refl,
                        start,
                      ))
              ]
      ]
    ]
  ]

  transfer_write : c.pak ≡ pak_transfer → Stored c (transfer_pak_write c send)
  unfolding transfer_pak_write
  transfer_write is_transfer = elim (Bool-cases (block_address send == 0xA000)) [
    | inl bank ↦ rw bank (if-Stored c c.pak_enabled _ refl start)
    | inr n1 ↦ elim (Bool-cases (block_address send == 0xB000)) [
      | inl mode ↦ rw (n1, mode) (if-Stored c c.pak_enabled _ refl start)
      | inr n2 ↦ elim (Bool-cases (leb 0xC000 (block_address send))) [
        | inr n3 ↦ rw (n1, n2, n3) (inr (c, refl, refl, start))
        | inl cart ↦
            let then_cart = λ (o : Option GbCart). o >>= λ g. some (record c { cart = g }) in
            elim (gameboy_write-cases 0x20 0 c.cart (gb_address c (block_address send))
              (λ i. send (3 + i))) [
                | inl (e, breaks) ↦ rw (n1, n2, cart) (inl (ap then_cart e, (is_transfer, breaks)))
                | inr (g, e, more) ↦
                    rw (n1, n2, cart) (inr (record c { cart = g }, ap then_cart e, refl, more))
              ]
      ]
    ]
  ]

  bytes-Served :
      (recv : Bytes) (kind : PakType) → c.pak ≡ kind → Served c (pak_bytes kind c send recv)
  unfolding pak_bytes
  bytes-Served recv pak_none e = inr (c, _, refl, refl, start)
  bytes-Served recv pak_rumble e = inr (c, _, refl, refl, start)
  bytes-Served recv pak_transfer e = transfer_read recv e
  bytes-Served recv pak_mem e = elim (Bool-cases (leb (block_address send) (mempak_size - 0x20))) [
    | inl inside ↦ rw inside (inr (c, _, refl, refl, start))
    | inr past ↦ rw past (inr (c, _, refl, refl, start))
  ]

  store-Stored : (kind : PakType) → c.pak ≡ kind → Stored c (pak_store kind c send)
  unfolding pak_store
  store-Stored pak_none e = inr (c, refl, refl, start)
  store-Stored pak_rumble e = inr (c, refl, refl, start)
  store-Stored pak_transfer e = transfer_write e
  store-Stored pak_mem e = elim (Bool-cases (leb (block_address send) (mempak_size - 0x20))) [
    | inl inside ↦ rw inside (inr (_, refl, refl, start))
    | inr past ↦ rw past (inr (c, refl, refl, start))
  ]

  enable-Stored : Stored c (some (pak_enable c send))
  unfolding pak_enable
  enable-Stored = elim (Bool-cases (send 3 == 0xFE)) [
    | inl off ↦ rw off (inr (_, refl, refl, start))
    | inr other ↦ rw other (if-Stored c (send 3 == 0x84) _ refl start)
  ]

  -- The two functions of a pak.
  pub pak_read-Served : (recv : Bytes) → Served c (controller_pak_read c send recv)
  unfolding controller_pak_read
  pak_read-Served recv = elim (bytes-Served recv c.pak refl) [
    | inl (e, u) ↦ inl (ap summed e, u)
    | inr (c', bytes, e, pak, r) ↦ inr (c', _, ap summed e, pak, r)
  ]
    where
      summed : Option (Controller × Bytes) → Option (Controller × Bytes)
      summed o = o >>= λ r. some (r.0, update r.1 0x20 (controller_pak_crc r.1))

  pub pak_write-Served : (recv : Bytes) → Served c (controller_pak_write c send recv)
  unfolding controller_pak_write
  pak_write-Served recv = elim (Bool-cases (block_address send == 0x8000)) [
    | inl enable ↦ rw enable (answer _ enable-Stored)
    | inr block ↦ rw block (answer _ (store-Stored c.pak refl))
  ]
    where
      answered : Option Controller → Option (Controller × Bytes)
      answered o = o >>= λ c'. some (c', update recv 0 (controller_pak_crc (λ i. send (3 + i))))

      answer : (o : Option Controller) → Stored c o → Served c (answered o)
      answer o (inl (e, u)) = inl (ap answered e, u)
      answer o (inr (c', e, pak, r)) = inr (c', _, ap answered e, pak, r)
