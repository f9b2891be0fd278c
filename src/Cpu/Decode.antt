-- ===== src/Cpu/Decode.antt =====
-- vr4300/opcodes.md, vr4300/opcodes.h and vr4300/decoder.c: the opcodes and the decoder. A pointer
-- into the opcode table is the opcode it points to.
use cen.Base.{ℕ, ◌+◌, List, [], ◌∷◌, ◌++◌, bit_and, ◌>>>◌, get_or, replicate}

pub data Opcode : Type 0 where
  invalid add addi addiu addu and andi bc0 bc1 bc2 beq beql bgez bgezal bgezall bgezl : Opcode
  bgtz bgtzl blez blezl bltz bltzal bltzall bltzl bne bnel break cache cfc0 cfc1 cfc2 : Opcode
  cp1_abs cp1_add cp1_c_eq cp1_c_f cp1_c_le cp1_c_lt cp1_c_nge cp1_c_ngl cp1_c_ngle : Opcode
  cp1_c_ngt cp1_c_ole cp1_c_olt cp1_c_ueq cp1_c_ule cp1_c_ult cp1_c_un cp1_c_seq : Opcode
  cp1_c_sf cp1_ceil_l cp1_ceil_w cp1_cvt_d cp1_cvt_l cp1_cvt_s cp1_cvt_w cp1_div : Opcode
  cp1_floor_l cp1_floor_w cp1_mov cp1_mul cp1_neg cp1_round_l cp1_round_w cp1_sqrt : Opcode
  cp1_sub cp1_trunc_l cp1_trunc_w ctc0 ctc1 ctc2 dadd daddi daddiu daddu ddiv ddivu div : Opcode
  divu dmfc0 dmfc1 dmfc2 dmtc0 dmtc1 dmtc2 dmult dmultu dsll dsllv dsll32 dsra dsrav : Opcode
  dsra32 dsrl dsrlv dsrl32 dsub dsubu eret j jal jalr jr lb lbu ld ldc0 ldc1 ldc2 ldl : Opcode
  ldr lh lhu ll lld lui lw lwc0 lwc1 lwc2 lwl lwr lwu mfc0 mfc1 mfc2 mfhi mflo mtc0 mtc1 : Opcode
  mtc2 mthi mtlo mult multu nor or ori sb sc scd sd sdc0 sdc1 sdc2 sdl sdr sh sll sllv : Opcode
  slt slti sltiu sltu sra srav srl srlv sub subu sw swc0 swc1 swc2 swl swr sync syscall : Opcode
  teq teqi tge tgei tgeiu tgeu tlbp tlbr tlbwi tlbwr tlt tlti tltiu tltu tne tnei xor : Opcode
  xori : Opcode

-- vr4300_opcode_table. The macro of BC2 builds the opcode BC1.
abbrev pub opcode_table : List Opcode
opcode_table =
    sll ∷ invalid ∷ srl ∷ sra ∷ sllv ∷ invalid ∷ srlv ∷ srav ∷ jr ∷ jalr ∷ invalid ∷ invalid
    ∷ syscall ∷ break ∷ invalid ∷ sync ∷ mfhi ∷ mthi ∷ mflo ∷ mtlo ∷ dsllv ∷ invalid ∷ dsrlv ∷ dsrav
    ∷ mult ∷ multu ∷ div ∷ divu ∷ dmult ∷ dmultu ∷ ddiv ∷ ddivu ∷ add ∷ addu ∷ sub ∷ subu ∷ and ∷ or
    ∷ xor ∷ nor ∷ invalid ∷ invalid ∷ slt ∷ sltu ∷ dadd ∷ daddu ∷ dsub ∷ dsubu ∷ tge ∷ tgeu ∷ tlt
    ∷ tltu ∷ teq ∷ invalid ∷ tne ∷ invalid ∷ dsll ∷ invalid ∷ dsrl ∷ dsra ∷ dsll32 ∷ invalid
    ∷ dsrl32 ∷ dsra32 ∷ bltz ∷ bgez ∷ bltzl ∷ bgezl ∷ invalid ∷ invalid ∷ invalid ∷ invalid ∷ tgei
    ∷ tgeiu ∷ tlti ∷ tltiu ∷ teqi ∷ invalid ∷ tnei ∷ invalid ∷ bltzal ∷ bgezal ∷ bltzall ∷ bgezall
    ∷ invalid ∷ invalid ∷ invalid ∷ invalid ∷ invalid ∷ invalid ∷ invalid ∷ invalid ∷ invalid
    ∷ invalid ∷ invalid ∷ invalid ∷ mfc0 ∷ dmfc0 ∷ cfc0 ∷ invalid ∷ mtc0 ∷ dmtc0 ∷ ctc0 ∷ invalid
    ∷ bc0 ∷ invalid ∷ invalid ∷ invalid ∷ invalid ∷ invalid ∷ invalid ∷ invalid ∷ invalid ∷ tlbr
    ∷ tlbwi ∷ invalid ∷ invalid ∷ invalid ∷ tlbwr ∷ invalid ∷ tlbp ∷ invalid ∷ invalid ∷ invalid
    ∷ invalid ∷ invalid ∷ invalid ∷ invalid ∷ invalid ∷ invalid ∷ invalid ∷ invalid ∷ invalid
    ∷ invalid ∷ invalid ∷ invalid ∷ eret ∷ invalid ∷ invalid ∷ invalid ∷ invalid ∷ invalid ∷ invalid
    ∷ invalid ∷ invalid ∷ invalid ∷ invalid ∷ invalid ∷ invalid ∷ invalid ∷ invalid ∷ invalid
    ∷ invalid ∷ invalid ∷ invalid ∷ invalid ∷ invalid ∷ invalid ∷ invalid ∷ invalid ∷ invalid
    ∷ invalid ∷ invalid ∷ invalid ∷ invalid ∷ invalid ∷ invalid ∷ invalid ∷ invalid ∷ invalid
    ∷ invalid ∷ invalid ∷ invalid ∷ invalid ∷ invalid ∷ invalid ∷ mfc1 ∷ dmfc1 ∷ cfc1 ∷ invalid
    ∷ mtc1 ∷ dmtc1 ∷ ctc1 ∷ invalid ∷ bc1 ∷ invalid ∷ invalid ∷ invalid ∷ invalid ∷ invalid
    ∷ invalid ∷ invalid ∷ cp1_add ∷ cp1_sub ∷ cp1_mul ∷ cp1_div ∷ cp1_sqrt ∷ cp1_abs ∷ cp1_mov
    ∷ cp1_neg ∷ cp1_round_l ∷ cp1_trunc_l ∷ cp1_ceil_l ∷ cp1_floor_l ∷ cp1_round_w ∷ cp1_trunc_w
    ∷ cp1_ceil_w ∷ cp1_floor_w ∷ invalid ∷ invalid ∷ invalid ∷ invalid ∷ invalid ∷ invalid ∷ invalid
    ∷ invalid ∷ invalid ∷ invalid ∷ invalid ∷ invalid ∷ invalid ∷ invalid ∷ invalid ∷ invalid
    ∷ cp1_cvt_s ∷ cp1_cvt_d ∷ invalid ∷ invalid ∷ cp1_cvt_w ∷ cp1_cvt_l ∷ invalid ∷ invalid
    ∷ invalid ∷ invalid ∷ invalid ∷ invalid ∷ invalid ∷ invalid ∷ invalid ∷ invalid ∷ cp1_c_f
    ∷ cp1_c_un ∷ cp1_c_eq ∷ cp1_c_ueq ∷ cp1_c_olt ∷ cp1_c_ult ∷ cp1_c_ole ∷ cp1_c_ule ∷ cp1_c_sf
    ∷ cp1_c_ngle ∷ cp1_c_seq ∷ cp1_c_ngl ∷ cp1_c_lt ∷ cp1_c_nge ∷ cp1_c_le ∷ cp1_c_ngt ∷ mfc2
    ∷ dmfc2 ∷ cfc2 ∷ invalid ∷ mtc2 ∷ dmtc2 ∷ ctc2 ∷ invalid ∷ bc1 ∷ invalid ∷ invalid ∷ invalid
    ∷ invalid ∷ invalid ∷ invalid ∷ invalid ∷ invalid ∷ invalid ∷ invalid ∷ invalid ∷ invalid
    ∷ invalid ∷ invalid ∷ invalid ∷ invalid ∷ invalid ∷ invalid ∷ invalid ∷ invalid ∷ invalid
    ∷ invalid ∷ invalid ∷ invalid ∷ invalid ∷ j ∷ jal ∷ beq ∷ bne ∷ blez ∷ bgtz ∷ addi ∷ addiu
    ∷ slti ∷ sltiu ∷ andi ∷ ori ∷ xori ∷ lui ∷ invalid ∷ invalid ∷ invalid ∷ invalid ∷ beql ∷ bnel
    ∷ blezl ∷ bgtzl ∷ daddi ∷ daddiu ∷ ldl ∷ ldr ∷ invalid ∷ invalid ∷ invalid ∷ invalid ∷ lb ∷ lh
    ∷ lwl ∷ lw ∷ lbu ∷ lhu ∷ lwr ∷ lwu ∷ sb ∷ sh ∷ swl ∷ sw ∷ sdl ∷ sdr ∷ swr ∷ cache ∷ ll ∷ lwc1
    ∷ lwc2 ∷ invalid ∷ lld ∷ ldc1 ∷ ldc2 ∷ ld ∷ sc ∷ swc1 ∷ swc2 ∷ invalid ∷ scd ∷ sdc1 ∷ sdc2 ∷ sd
    ∷ []

-- struct vr4300_opcode_escape.
pub record Escape : Type 0 where
  pub offset : ℕ
  pub shift : ℕ
  pub mask : ℕ

abbrev pub escape : ℕ → ℕ → ℕ → Escape
escape offset shift mask = record { offset = offset; shift = shift; mask = mask }

-- vr4300_escape_table, by the top seven bits of an instruction word.
abbrev pub escape_table : List Escape
escape_table =
    (escape 0 0 0x3F ∷ escape 0 0 0x3F ∷ escape 64 16 0x1F ∷ escape 64 16 0x1F ∷ [])
    ++ replicate 28 (escape 288 26 0x3F)
    ++ (escape 96 21 0x0F
        ∷ escape 112 0 0x3F
        ∷ escape 176 21 0x0F
        ∷ escape 192 0 0x3F
        ∷ escape 256 21 0x1F
        ∷ escape 256 21 0x1F
        ∷ [])
    ++ replicate 90 (escape 288 26 0x3F)

-- The entry of the opcode table that an escape selects.
abbrev pub escaped : Escape → ℕ → Opcode
escaped e iw =
    let index = bit_and (iw >>> e.shift) e.mask in get_or opcode_table (e.offset + index) invalid

unfoldable pub decode_instruction : ℕ → Opcode
decode_instruction iw = escaped (get_or escape_table (iw >>> 25) (escape 0 0 0)) iw

-- The flags of the entries of vr4300_opcode_table, with the bits OPCODE_INFO_* of vr4300/decoder.h.
abbrev pub flags_table : List ℕ
flags_table =
    0x10 ∷ 0 ∷ 0x10 ∷ 0x10 ∷ 0x18 ∷ 0 ∷ 0x18 ∷ 0x18 ∷ 0x80000008 ∷ 0x80000008 ∷ 0 ∷ 0 ∷ 0 ∷ 0 ∷ 0
    ∷ 0 ∷ 0 ∷ 8 ∷ 0 ∷ 8 ∷ 0x18 ∷ 0 ∷ 0x18 ∷ 0x18 ∷ 0x18 ∷ 0x18 ∷ 0x18 ∷ 0x18 ∷ 0x18 ∷ 0x18 ∷ 0x18
    ∷ 0x18 ∷ 0x18 ∷ 0x18 ∷ 0x18 ∷ 8 ∷ 0x18 ∷ 0x18 ∷ 0x18 ∷ 0x18 ∷ 0 ∷ 0 ∷ 0x18 ∷ 0x18 ∷ 0x18 ∷ 0x18
    ∷ 0x18 ∷ 0x18 ∷ 0x18 ∷ 0x18 ∷ 0x18 ∷ 0x18 ∷ 0x18 ∷ 0 ∷ 0x18 ∷ 0 ∷ 0x10 ∷ 0 ∷ 0x10 ∷ 0x10 ∷ 0x10
    ∷ 0 ∷ 0x10 ∷ 0x10 ∷ 0x80000008 ∷ 0x80000008 ∷ 0x80000008 ∷ 0x80000008 ∷ 0 ∷ 0 ∷ 0 ∷ 0 ∷ 8 ∷ 8
    ∷ 8 ∷ 8 ∷ 8 ∷ 0 ∷ 8 ∷ 0 ∷ 0x80000008 ∷ 0x80000008 ∷ 0x80000008 ∷ 0x80000008 ∷ 0 ∷ 0 ∷ 0 ∷ 0 ∷ 0
    ∷ 0 ∷ 0 ∷ 0 ∷ 0 ∷ 0 ∷ 0 ∷ 0 ∷ 0 ∷ 0 ∷ 0 ∷ 0 ∷ 0x10 ∷ 0x10 ∷ 0 ∷ 0 ∷ 0x80000000 ∷ 0 ∷ 0 ∷ 0 ∷ 0
    ∷ 0 ∷ 0 ∷ 0 ∷ 0 ∷ 0 ∷ 0 ∷ 0 ∷ 0 ∷ 0 ∷ 0 ∷ 0 ∷ 0 ∷ 0 ∷ 0 ∷ 0 ∷ 0 ∷ 0 ∷ 0 ∷ 0 ∷ 0 ∷ 0 ∷ 0 ∷ 0 ∷ 0
    ∷ 0 ∷ 0 ∷ 0 ∷ 0 ∷ 0 ∷ 0 ∷ 0 ∷ 0 ∷ 0 ∷ 0 ∷ 0 ∷ 0 ∷ 0 ∷ 0 ∷ 0 ∷ 0 ∷ 0 ∷ 0 ∷ 0 ∷ 0 ∷ 0 ∷ 0 ∷ 0 ∷ 0
    ∷ 0 ∷ 0 ∷ 0 ∷ 0 ∷ 0 ∷ 0 ∷ 0 ∷ 0 ∷ 0 ∷ 0 ∷ 0 ∷ 0 ∷ 0 ∷ 0 ∷ 0 ∷ 0 ∷ 0 ∷ 0 ∷ 0 ∷ 0xD ∷ 0xD ∷ 4 ∷ 0
    ∷ 0x1D ∷ 0x14 ∷ 4 ∷ 0 ∷ 0x80000004 ∷ 0 ∷ 0 ∷ 0 ∷ 0 ∷ 0 ∷ 0 ∷ 0 ∷ 0x1F ∷ 0x1F ∷ 0x1F ∷ 0x1F ∷ 0xD
    ∷ 0xD ∷ 0xD ∷ 0xD ∷ 0xD ∷ 0xD ∷ 0xD ∷ 0xD ∷ 0xD ∷ 0xD ∷ 0xD ∷ 0xD ∷ 0 ∷ 0 ∷ 0 ∷ 0 ∷ 0 ∷ 0 ∷ 0
    ∷ 0 ∷ 0 ∷ 0 ∷ 0 ∷ 0 ∷ 0 ∷ 0 ∷ 0 ∷ 0 ∷ 0xD ∷ 0xD ∷ 0 ∷ 0 ∷ 0xD ∷ 0xD ∷ 0 ∷ 0 ∷ 0 ∷ 0 ∷ 0 ∷ 0 ∷ 0
    ∷ 0 ∷ 0 ∷ 0 ∷ 0x1F ∷ 0x1F ∷ 0x1F ∷ 0x1F ∷ 0x1F ∷ 0x1F ∷ 0x1F ∷ 0x1F ∷ 0x1F ∷ 0x1F ∷ 0x1F ∷ 0x1F
    ∷ 0x1F ∷ 0x1F ∷ 0x1F ∷ 0x1F ∷ 0 ∷ 0 ∷ 0 ∷ 0 ∷ 0 ∷ 0 ∷ 0 ∷ 0 ∷ 0x80000000 ∷ 0 ∷ 0 ∷ 0 ∷ 0 ∷ 0 ∷ 0
    ∷ 0 ∷ 0 ∷ 0 ∷ 0 ∷ 0 ∷ 0 ∷ 0 ∷ 0 ∷ 0 ∷ 0 ∷ 0 ∷ 0 ∷ 0 ∷ 0 ∷ 0 ∷ 0 ∷ 0 ∷ 0 ∷ 0 ∷ 0x80000000
    ∷ 0x80000000 ∷ 0x80000018 ∷ 0x80000018 ∷ 0x80000008 ∷ 0x80000008 ∷ 8 ∷ 8 ∷ 8 ∷ 8 ∷ 8 ∷ 8 ∷ 8 ∷ 0
    ∷ 0 ∷ 0 ∷ 0 ∷ 0 ∷ 0x80000018 ∷ 0x80000018 ∷ 0x80000008 ∷ 0x80000008 ∷ 8 ∷ 8 ∷ 0x38 ∷ 0x38 ∷ 0
    ∷ 0 ∷ 0 ∷ 0 ∷ 0x28 ∷ 0x28 ∷ 0x38 ∷ 0x28 ∷ 0x28 ∷ 0x28 ∷ 0x38 ∷ 0x28 ∷ 0x58 ∷ 0x58 ∷ 0x58 ∷ 0x58
    ∷ 0x58 ∷ 0x58 ∷ 0x58 ∷ 8 ∷ 0x28 ∷ 0x3E ∷ 0 ∷ 0 ∷ 0 ∷ 0x2C ∷ 0 ∷ 0x28 ∷ 0x58 ∷ 0x5E ∷ 0 ∷ 0 ∷ 0
    ∷ 0x5E ∷ 0 ∷ 0x58 ∷ []

abbrev pub info_fpu : ℕ
info_fpu = 0x4

abbrev pub info_needrs : ℕ
info_needrs = 0x8

abbrev pub info_needrt : ℕ
info_needrt = 0x10

abbrev pub info_branch : ℕ
info_branch = 0x80000000

-- The flags of the entry that `decode_instruction` selects.
unfoldable pub decode_flags : ℕ → ℕ
decode_flags iw =
    let e = get_or escape_table (iw >>> 25) (escape 0 0 0) in
    get_or flags_table (e.offset + bit_and (iw >>> e.shift) e.mask) 0
