-- ===== src/Pi/Cart.antt =====
-- pi/controller.c: the words of the cartridge on the bus, and pi/is_viewer.c: the IS viewer in its
-- address range, a buffer through which a program prints lines. The conversion of a line to UTF-8
-- and its output are those of the host and left out.
use cen.Base.{
  ℕ, ◌+◌, ◌-◌, Bool, false, not, ◌&&◌, ◌||◌, Option, none, some, bit_and, bit_or, ltb, leb, ◌==◌,
  if◌then◌else◌, not32, sub32, sub64, u32, ◌>>>◌, Bytes, update, copy, fill, all_below, load_be,
  byteswap_32, store32,
}
use cen.Pi.{PiController}

-- The address range of the viewer, and the size of its output buffer.
abbrev pub is_viewer_base_address : ℕ
is_viewer_base_address = 0x13FF0000

abbrev pub is_viewer_address_len : ℕ
is_viewer_address_len = 0x1000

abbrev pub is_buffer_size : ℕ
is_buffer_size = is_viewer_address_len - 0x20 + 1

-- struct is_viewer.
pub record IsViewer : Type 0 where
  pub base_address : ℕ
  pub len : ℕ
  pub buffer : Bytes
  pub output_buffer : Bytes
  pub output_buffer_pos : ℕ
  pub show_output : Bool
  pub output_warning : Bool

-- The allocations succeed.
unfoldable pub is_viewer_init : Bool → IsViewer
is_viewer_init is_viewer_output = record {
  base_address = is_viewer_base_address;
  len = is_viewer_address_len;
  buffer = λ i. 0;
  output_buffer = λ i. 0;
  output_buffer_pos = 0;
  show_output = is_viewer_output;
  output_warning = false;
}

unfoldable pub is_viewer_map : IsViewer → ℕ → Bool
is_viewer_map is address =
    leb is.base_address address && leb (u32 (address + 4)) (u32 (is.base_address + is.len))

-- An access to the buffer; past its end it is undefined.
unfoldable pub read_is_viewer : IsViewer → ℕ → Option ℕ
read_is_viewer is address =
    let offset = sub32 address is.base_address in
    if leb (offset + 4) is_viewer_address_len then some (load_be is.buffer offset) else none

-- memchr(buffer, '\n', length).
unfoldable pub has_newline : Bytes → ℕ → Bool
has_newline bytes length = not (all_below (λ i. not (bytes i == 0x0A)) length)

-- A full line leaves the output buffer.
unfoldable pub flush_output : IsViewer → IsViewer
unfolding has_newline
flush_output is =
    if has_newline is.output_buffer is.output_buffer_pos
    then record is {
      output_buffer = fill is.output_buffer 0 0 is.output_buffer_pos;
      output_buffer_pos = 0;
      output_warning = is.output_warning || not is.show_output;
    }
    else is

-- A write of a length prints that many bytes and clears them.
unfoldable pub print_output : IsViewer → ℕ → Option IsViewer
unfolding flush_output
print_output is length =
    let end = is.output_buffer_pos + length in
    let appended = record is {
      output_buffer =
          update (copy is.output_buffer is.output_buffer_pos is.buffer 0x20 length) end 0;
      output_buffer_pos = end;
    } in
    let printed = if ltb 0 length then flush_output appended else is in
    if leb (0x20 + length) is_viewer_address_len && (ltb end is_buffer_size || (length == 0))
    then some (record printed { buffer = fill is.buffer 0x20 0 length })
    else none

unfoldable pub write_is_viewer : IsViewer → ℕ → ℕ → Option IsViewer
unfolding print_output
write_is_viewer is address word =
    let offset = sub32 address is.base_address in
    if offset == 0x14
    then print_output is word
    else if leb (offset + 4) is_viewer_address_len
    then some (record is { buffer = store32 is.buffer offset (byteswap_32 word) })
    else none

module _ {Dd : Type 0} where
  -- A word of the ROM; the subtraction is of size_t.
  unfoldable pub rom_word : PiController Dd → ℕ → Option ℕ
  rom_word s address =
      let offset = bit_and (sub32 address 0x10000000) (not32 0x3) in
      let open_bus = bit_or (address >>> 16) (bit_and address 0xFFFF0000) in
      elim s.rom [
        | none ↦ some open_bus
        | some rom ↦
            if ltb (sub64 s.rom_size 4) offset
            then some open_bus
            else if leb (offset + 4) s.rom_size
            then some (load_be rom offset)
            else none
      ]

  unfoldable pub read_cart_rom : PiController Dd → Option IsViewer → ℕ → Option ℕ
  unfolding rom_word is_viewer_map read_is_viewer
  read_cart_rom s none address = rom_word s address
  read_cart_rom s (some is) address =
      if is_viewer_map is address then read_is_viewer is address else rom_word s address

  unfoldable pub write_cart_rom :
      PiController Dd → Option IsViewer → ℕ → ℕ → ℕ → Option (Option IsViewer)
  unfolding is_viewer_map write_is_viewer
  write_cart_rom s none address word dqm = some none
  write_cart_rom s (some is) address word dqm =
      if is_viewer_map is address
      then (elim (write_is_viewer is address word) [ none ↦ none | some is' ↦ some (some is') ])
      else some (some is)

-- The accesses to SRAM on the bus only report themselves: a read leaves the word as it was.
abbrev pub read_sram : ℕ → ℕ → ℕ
read_sram address word = word

abbrev pub write_sram {ℓ} : {S : Type ℓ} → S → ℕ → ℕ → ℕ → S
write_sram s address word dqm = s
