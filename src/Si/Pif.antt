-- ===== src/Si/Pif.antt =====
-- si/controller.c and si/controller.h: the PIF's commands and memory, and the SI registers.
pub mod Loop
pub mod Safe
use cen.Base.{
  ℕ, zero, suc, ◌+◌, ◌-◌, ◌*◌, ◌/◌, ◌%◌, ◌^◌, Bool, true, false, not, ◌&&◌, ◌||◌, Option, none,
  some, bit_and, bit_or, ltb, leb, ◌==◌, if◌then◌else◌, has, not32, sub32, u8, u32, ◌>>>◌, Bytes,
  copy, fill, update, load_be, store32, byteswap_32, merge,
}
use cen.Mi.{Vr4300, si, signal_rcp_interrupt, clear_rcp_interrupt}
use cen.Ri.{RiController, max_rdram_size, write_rdram}
use cen.Si.Eeprom.{Eeprom, eeprom_read, eeprom_write}
use cen.Si.Rtc.{Rtc, TimeStamp, Reply, rtc_status, rtc_read, rtc_write, rtc_init}
use cen.Si.Pak.{
  Controller, PakType, pak_none, pak_mem, pak_rumble, pak_transfer, controller_pak_read,
  controller_pak_write,
}
use cen.Si.Cic.{get_cic_seed}

-- Indices into `regs`.
abbrev pub si_dram_addr_reg : ℕ
si_dram_addr_reg = 0

abbrev pub si_pif_addr_rd64b_reg : ℕ
si_pif_addr_rd64b_reg = 1

abbrev pub si_pif_addr_wr64b_reg : ℕ
si_pif_addr_wr64b_reg = 4

abbrev pub si_status_reg : ℕ
si_status_reg = 6

abbrev pub num_si_registers : ℕ
num_si_registers = 7

abbrev pub si_regs_base_address : ℕ
si_regs_base_address = 0x04800000

abbrev pub si_regs_address_len : ℕ
si_regs_address_len = 0x1C

abbrev pub pif_rom_base_address : ℕ
pif_rom_base_address = 0x1FC00000

abbrev pub pif_ram_base_address : ℕ
pif_ram_base_address = 0x1FC007C0

-- struct si_controller, with the parts of the bus that it reaches: the MI, RDRAM, and whether the
-- video interface has a window. `command` and `ram` have 64 bytes.
pub record SiController : Type 0 where
  pub rom : Bytes
  pub command : Bytes
  pub ram : Bytes
  pub regs : ℕ → ℕ
  pub pif_status : ℕ
  pub input : Bytes
  pub eeprom : Eeprom
  pub rtc : Rtc
  pub controller : ℕ → Controller
  pub window : Bool
  pub vr4300 : Vr4300
  pub ri : RiController

-- The result of a PIF command: the return code, the receive buffer and the controller.
pub record Answer : Type 0 where
  pub code : ℕ
  pub recv_buf : Bytes
  pub si : SiController

abbrev pub put3 : Bytes → ℕ → ℕ → ℕ → Bytes
put3 buf a b c = update (update (update buf 0 a) 1 b) 2 c

-- How a turn of the loop over the commands ends, and how the loop ends. C leaves `undefined` and
-- `fault` undefined; fuel is the model's own.
pub data Turn : Type 0 where
  stop : SiController → Turn
  next : SiController → ℕ → ℕ → Turn
  undefined : Turn

pub data Outcome : Type 0 where
  done : SiController → Outcome
  fault out_of_fuel : Outcome

-- The third byte of a controller's status: whether a pak is inserted.
unfoldable pub pak_present : PakType → ℕ
pak_present pak_none = 0x00
pak_present pak_mem = 0x01
pak_present pak_rumble = 0x01
pak_present pak_transfer = 0x01

-- Commands 0x00 and 0xFF.
unfoldable pub pif_status_command : SiController → ℕ → Bytes → Answer
unfolding pak_present
pif_status_command s channel recv_buf =
    let c = s.controller channel in
    let connected = put3 recv_buf 0x05 0x00 (pak_present c.pak) in
    if channel == 0
    then record { code = 0; recv_buf = connected; si = s }
    else if leb channel 3
    then (if c.present
        then record { code = 0; recv_buf = connected; si = s }
        else record { code = 1; recv_buf = put3 recv_buf 0xFF 0xFF 0xFF; si = s })
    else if channel == 4
    then record {
      code = 0;
      recv_buf =
          if s.eeprom.size == 0x200
          then put3 recv_buf 0x00 0x80 0x00
          else if s.eeprom.size == 0x800
          then put3 recv_buf 0x00 0xC0 0x00
          else recv_buf;
      si = s;
    }
    else record { code = 1; recv_buf = recv_buf; si = s }

-- Command 0x01: the buttons and the stick.
unfoldable pub pif_read_controller : SiController → ℕ → Bytes → Answer
pif_read_controller s channel recv_buf =
    if channel == 0
    then record {
      code = 0;
      recv_buf = if s.window then copy recv_buf 0 s.input 0 4 else fill recv_buf 0 0x0 4;
      si = s;
    }
    else record { code = 1; recv_buf = recv_buf; si = s }

abbrev of_reply : SiController → Reply → Answer
of_reply s r = record { code = r.code; recv_buf = r.recv_buf; si = record s { rtc = r.rtc } }

-- The answer of a pak; `none` is an access to a Game Boy cartridge that is undefined in C.
unfoldable pub of_pak : SiController → ℕ → Option (Controller × Bytes) → Option Answer
of_pak s channel none = none
of_pak s channel (some (c, bytes)) = some (record {
  code = 0;
  recv_buf = bytes;
  si = record s { controller = update s.controller channel c };
})

abbrev refused : SiController → Bytes → Answer
refused s recv_buf = record { code = 1; recv_buf = recv_buf; si = s }

module _ (get_local_time : ℕ → TimeStamp) (get_offset_seconds : TimeStamp → ℕ) where
  -- The commands to the channel of the game cartridge: the EEPROM and the clock.
  unfoldable pub pif_cart_command : SiController → Bytes → Bytes → ℕ → Answer
  pif_cart_command s send_buf recv_buf recv_bytes =
      let command = send_buf 0 in
      let read = eeprom_read s.eeprom send_buf recv_buf in
      let written = eeprom_write s.eeprom send_buf in
      if command == 0x04
      then record { code = read.0; recv_buf = read.1; si = s }
      else if command == 0x05
      then record { code = written.0; recv_buf = recv_buf; si = record s { eeprom = written.1 } }
      else if command == 0x06
      then of_reply s (rtc_status s.rtc recv_buf)
      else if command == 0x07
      then of_reply s
          (rtc_read get_local_time get_offset_seconds s.rtc send_buf recv_buf recv_bytes)
      else if command == 0x08
      then of_reply s (rtc_write get_local_time get_offset_seconds s.rtc send_buf recv_buf)
      else refused s recv_buf

  unfoldable pub pif_perform_command : SiController → ℕ → Bytes → Bytes → ℕ → Option Answer
  unfolding pif_status_command pif_read_controller of_pak pif_cart_command
  pif_perform_command s channel send_buf recv_buf recv_bytes =
      let command = send_buf 0 in
      let c = s.controller channel in
      if command == 0x00 || command == 0xFF
      then some (pif_status_command s channel recv_buf)
      else if command == 0x01
      then some (pif_read_controller s channel recv_buf)
      else if command == 0x02
      then (if ltb 3 channel
          then some (refused s recv_buf)
          else of_pak s channel (controller_pak_read c send_buf recv_buf))
      else if command == 0x03
      then (if ltb 3 channel
          then some (refused s recv_buf)
          else of_pak s channel (controller_pak_write c send_buf recv_buf))
      else if not (channel == 4)
      then some (refused s recv_buf)
      else some (pif_cart_command s send_buf recv_buf recv_bytes)

  -- What a turn makes of the answer to a command, with the place behind the bytes that were sent.
  unfoldable pub answered : ℕ → ℕ → ℕ → Option Answer → Turn
  answered channel after recv_byte none = undefined
  answered channel after recv_byte (some answer) =
      if answer.code == 0
      then next (record (answer.si) { ram = copy answer.si.ram after answer.recv_buf 0 recv_byte })
          (channel + 1) (after + recv_byte)
      else next
          (record (answer.si) {
            ram = update answer.si.ram (after - 2) (bit_or (answer.si.ram (after - 2)) 0x80);
          })
          (channel + 1) after

  -- One turn of the loop in `pif_process`: it stops, goes on, or is undefined in C.
  -- `junk` is what the two buffers on the stack hold.
  unfoldable pub pif_turn : Bytes → SiController → ℕ → ℕ → Turn
  unfolding answered
  pif_turn junk s channel ptr =
      let send_bytes = s.command ptr in
      let ptr = ptr + 1 in
      let recv_byte = s.command ptr in
      -- recv_bytes as it is added to an unsigned number
      let recv_bytes = if ltb recv_byte 0x80 then recv_byte else 2 ^ 32 - 2 ^ 8 + recv_byte in
      let after = ptr + 1 + send_bytes in
      let send_buf = copy junk 0 s.command (ptr + 1) send_bytes in
      let recv_buf = copy junk 0 s.command after recv_byte in
      if send_bytes == 0xFE
      then stop s
      else if leb 0x80 send_bytes
      then next s channel ptr
      else if ltb 0 send_bytes && bit_and send_bytes 0xC0 == 0
      then (if recv_byte == 0xFE
          then stop s
          else if ltb 0x40 after || ltb 0x40 (u32 (after + recv_bytes))
          then stop s
          else if leb 0x80 recv_byte
          then undefined
          else answered channel after recv_byte
              (pif_perform_command s channel send_buf recv_buf recv_byte))
      else next s (channel + 1) ptr

  unfoldable pub pif_loop : ℕ → Bytes → SiController → ℕ → ℕ → Outcome
  pif_loop zero junk s channel ptr = out_of_fuel
  pif_loop (suc fuel) junk s channel ptr = elim (ltb ptr 0x3F) [
    | false ↦ done s
    | true ↦ elim (pif_turn junk s channel ptr) [
      | stop s' ↦ done s'
      | next s' channel' ptr' ↦ pif_loop fuel junk s' channel' ptr'
      | undefined ↦ fault
    ]
  ]

  unfoldable pub finish : Outcome → Outcome
  finish (done s) = done (record s { ram = update s.ram 0x3F (bit_and (s.ram 0x3F) 0x7F) })
  finish fault = fault
  finish out_of_fuel = out_of_fuel

  -- Each turn advances `ptr`, so 0x40 rounds are enough.
  unfoldable pub pif_process : Bytes → SiController → Outcome
  unfolding finish pif_loop
  pif_process junk s = if s.command 0x3F == 0x1 then finish (pif_loop 0x40 junk s 0 0) else done s
