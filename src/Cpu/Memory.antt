-- ===== src/Cpu/Memory.antt =====
-- vr4300/functions.c: the loads and stores, which leave a request for the DC stage.
use cen.Base.{
  ℕ, ◌+◌, ◌-◌, ◌^◌, List, [], ◌∷◌, bit_and, bit_or, bit_xor, ◌==◌, leb, if◌then◌else◌, has, u32,
  u64, sub64, sext16, sext32, ◌>>>◌, ◌<<<◌, get_or,
}
use cen.Cpu.State.{
  Vr4300, BusRequest, RequestType, request_none, request_read, request_write, request_cache,
  request_cache_write, access_word, access_dword,
}
use cen.Cpu.Words.{get_rt, not64, shl64, sar64}

-- The sign of `iw << 2`, spread over 64 bits: all ones in a store.
abbrev pub sel_mask : ℕ → ℕ
sel_mask iw = sar64 (sext32 (iw <<< 2)) 32

-- `exdc_latch->request.type = n`, for the values of the enumeration.
abbrev pub request_type_of : ℕ → RequestType
request_type_of n =
    if n == 1
    then request_read
    else if n == 2
    then request_write
    else if n == 4
    then request_cache
    else if n == 5
    then request_cache_write
    else request_none

-- vr4300_load_sex_mask.
abbrev pub load_sex_mask : List ℕ
load_sex_mask =
    0xFFFFFFFFFFFFFFFF ∷ 0xFFFFFFFFFFFFFFFF ∷ 0 ∷ 0xFFFFFFFFFFFFFFFF ∷ 0xFF ∷ 0xFFFF ∷ 0
    ∷ 0xFFFFFFFF ∷ []

-- `rs + (int64_t) (int16_t) iw`.
abbrev pub address_of : ℕ → ℕ → ℕ
address_of iw rs = u64 (rs + sext16 iw)

unfoldable pub ld_sd : Vr4300 → ℕ → ℕ → ℕ → ℕ × Vr4300
ld_sd c iw rs rt =
    let sel = sel_mask iw in
    (
      0,
      record c {
        request = record {
          vaddr = address_of iw rs;
          data_mask = bit_or (not64 sel) (bit_and sel rt);
          wdqm = sel;
          postshift = 0;
          access_type = access_dword;
          request_type = request_type_of (sub64 1 sel);
          size = 8;
        };
        exdc_dest = bit_and (u32 (not64 sel)) (get_rt iw);
        exdc_result = 0;
      },
    )

unfoldable pub load_store : Vr4300 → ℕ → ℕ → ℕ → ℕ × Vr4300
load_store c iw rs rt =
    let sel = sel_mask iw in
    let address = address_of iw rs in
    let request_index = bit_and (iw >>> 26) 0x7 in
    let dqm = bit_and (get_or load_sex_mask request_index 0) (not64 sel) in
    let request_size = bit_and request_index 0x3 in
    let lshiftamt = (3 - request_size) <<< 3 in
    let rshiftamt = bit_and address 0x3 <<< 3 in
    (
      0,
      record c {
        request = record {
          vaddr = address;
          data_mask = bit_or dqm (bit_and sel (shl64 rt lshiftamt >>> rshiftamt));
          wdqm = u32 (u32 sel <<< lshiftamt) >>> rshiftamt;
          postshift = 0;
          access_type = access_word;
          request_type = request_type_of (sub64 1 sel);
          size = request_size + 1;
        };
        exdc_dest = bit_and (u32 (not64 sel)) (get_rt iw);
        exdc_result = 0;
      },
    )

-- The request of an unaligned load, and the bytes of rt that it leaves.
abbrev pub load_part : Vr4300 → BusRequest → ℕ → ℕ → Vr4300
load_part c request iw rt = record c {
  request = request;
  exdc_dest = get_rt iw;
  exdc_result = bit_and rt (not64 request.data_mask);
}

unfoldable pub ldl_ldr : Vr4300 → ℕ → ℕ → ℕ → ℕ × Vr4300
ldl_ldr c iw rs rt =
    let address = address_of iw rs in
    let offset = bit_and address 0x7 in
    let is_ldr = has (iw >>> 26) 0x1 in
    let size = if is_ldr then offset + 1 else 8 in
    let request : BusRequest = record {
      vaddr = if is_ldr then bit_xor address offset else address;
      data_mask =
          if is_ldr then (2 ^ 64 - 1) >>> ((8 - size) <<< 3) else shl64 (2 ^ 64 - 1) (offset <<< 3);
      wdqm = 0;
      postshift = 0;
      access_type = access_dword;
      request_type = request_read;
      size = size;
    } in
    (0, load_part c request iw rt)

-- VR4300_LWR_forceset: the carry of `offset - 3`, spread.
abbrev pub lwr_forceset : ℕ → ℕ
lwr_forceset offset = if leb (2 ^ 32) (offset + 4294967293) then 2 ^ 64 - 1 else 0

unfoldable pub lwl_lwr : Vr4300 → ℕ → ℕ → ℕ → ℕ × Vr4300
lwl_lwr c iw rs rt =
    let address = address_of iw rs in
    let offset = bit_and address 0x3 in
    let is_lwr = has (iw >>> 28) 0x1 in
    let size = if is_lwr then offset + 1 else 4 in
    let dqm_lwr = bit_or ((2 ^ 32 - 1) >>> ((4 - size) <<< 3)) (lwr_forceset offset) in
    let request : BusRequest = record {
      vaddr = if is_lwr then bit_xor address offset else address;
      data_mask = if is_lwr then dqm_lwr else shl64 (2 ^ 64 - 1) (offset <<< 3);
      wdqm = 0;
      postshift = 0;
      access_type = access_word;
      request_type = request_read;
      size = size;
    } in
    (0, load_part c request iw rt)

unfoldable pub sdl_sdr : Vr4300 → ℕ → ℕ → ℕ → ℕ × Vr4300
sdl_sdr c iw rs rt =
    let address = address_of iw rs in
    let offset = bit_and address 0x7 in
    let is_sdr = has (iw >>> 26) 0x1 in
    let shiftamt = if is_sdr then (7 - offset) <<< 3 else offset <<< 3 in
    let request = record c.request {
      vaddr = address;
      data_mask = if is_sdr then shl64 rt shiftamt else rt >>> shiftamt;
      wdqm = if is_sdr then shl64 (2 ^ 64 - 1) shiftamt else (2 ^ 64 - 1) >>> shiftamt;
      access_type = access_dword;
      request_type = request_write;
      size = 8;
    } in
    (0, record c { request = request })

unfoldable pub swl_swr : Vr4300 → ℕ → ℕ → ℕ → ℕ × Vr4300
swl_swr c iw rs rt =
    let address = address_of iw rs in
    let offset = bit_and address 0x3 in
    let is_swr = has (iw >>> 28) 0x1 in
    let shiftamt = if is_swr then (3 - offset) <<< 3 else offset <<< 3 in
    let request = record c.request {
      vaddr = address;
      data_mask = if is_swr then shl64 rt shiftamt else rt >>> shiftamt;
      wdqm = if is_swr then u32 ((2 ^ 32 - 1) <<< shiftamt) else (2 ^ 32 - 1) >>> shiftamt;
      access_type = access_word;
      request_type = request_write;
      size = 4;
    } in
    (0, record c { request = request })
