-- ===== src/Cpu/Alu.antt =====
-- The integer instructions of the group SPECIAL as the MIPS architecture describes them: a code
-- in the low six bits of the word, and a result on 32 or 64 bits. The theorems compare
-- vr4300/decoder.c and vr4300/functions.c with this description.
pub mod Results
pub mod Outcome
pub mod Arithmetic
pub mod Operations
pub mod Shifts
pub mod Special
pub mod Immediate
use cen.Base.{
  ℕ, ◌+◌, ◌-◌, ◌*◌, ◌/◌, ◌%◌, ◌^◌, ◌≡◌, bit_and, bit_or, bit_xor, ltb, if◌then◌else◌, u32, sub32,
  sub64, u64, sext32, sext16, u16,
}
use cen.Cpu.State.{Vr4300, do_mci}
use cen.Cpu.Words.{sar64}

pub data Operation : Type 0 where
  add addu sub subu dadd daddu dsub dsubu : Operation
  and or xor nor slt sltu : Operation
  sllv srlv sll srl dsllv dsrlv dsll dsrl dsll32 dsrl32 : Operation
  sra srav dsra dsra32 dsrav : Operation

-- The codes of the architecture.
unfoldable pub code_of : Operation → ℕ
code_of Operation.sll = 0
code_of Operation.srl = 2
code_of Operation.sllv = 4
code_of Operation.srlv = 6
code_of Operation.dsllv = 20
code_of Operation.dsrlv = 22
code_of Operation.add = 32
code_of Operation.addu = 33
code_of Operation.sub = 34
code_of Operation.subu = 35
code_of Operation.and = 36
code_of Operation.or = 37
code_of Operation.xor = 38
code_of Operation.nor = 39
code_of Operation.slt = 42
code_of Operation.sltu = 43
code_of Operation.dadd = 44
code_of Operation.daddu = 45
code_of Operation.dsub = 46
code_of Operation.dsubu = 47
code_of Operation.dsll = 56
code_of Operation.dsrl = 58
code_of Operation.dsll32 = 60
code_of Operation.dsrl32 = 62
code_of Operation.sra = 3
code_of Operation.srav = 7
code_of Operation.dsrav = 23
code_of Operation.dsra = 59
code_of Operation.dsra32 = 63

-- The signed order, by adding 2^63.
abbrev pub biased : ℕ → ℕ
biased x = (x + 2 ^ 63) % 2 ^ 64

-- The result, from the shift amount of the word and the two registers.
unfoldable pub reference : Operation → ℕ → ℕ → ℕ → ℕ
reference Operation.add sa rs rt = sext32 (rs + rt)
reference Operation.addu sa rs rt = sext32 (rs + rt)
reference Operation.sub sa rs rt = sext32 (sub32 (u32 rs) (u32 rt))
reference Operation.subu sa rs rt = sext32 (sub32 (u32 rs) (u32 rt))
reference Operation.dadd sa rs rt = u64 (rs + rt)
reference Operation.daddu sa rs rt = u64 (rs + rt)
reference Operation.dsub sa rs rt = sub64 rs rt
reference Operation.dsubu sa rs rt = sub64 rs rt
reference Operation.and sa rs rt = bit_and rs rt
reference Operation.or sa rs rt = bit_or rs rt
reference Operation.xor sa rs rt = bit_xor rs rt
reference Operation.nor sa rs rt = 2 ^ 64 - 1 - bit_or rs rt
reference Operation.slt sa rs rt = if ltb (biased rs) (biased rt) then 1 else 0
reference Operation.sltu sa rs rt = if ltb rs rt then 1 else 0
reference Operation.sll sa rs rt = sext32 (rt * 2 ^ sa)
reference Operation.srl sa rs rt = sext32 (u32 rt / 2 ^ sa)
reference Operation.sllv sa rs rt = sext32 (rt * 2 ^ (rs % 32))
reference Operation.srlv sa rs rt = sext32 (u32 rt / 2 ^ (rs % 32))
reference Operation.dsllv sa rs rt = u64 (rt * 2 ^ (rs % 64))
reference Operation.dsrlv sa rs rt = rt / 2 ^ (rs % 64)
reference Operation.dsll sa rs rt = u64 (rt * 2 ^ sa)
reference Operation.dsrl sa rs rt = rt / 2 ^ sa
reference Operation.dsll32 sa rs rt = u64 (rt * 2 ^ (sa + 32))
reference Operation.dsrl32 sa rs rt = rt / 2 ^ (sa + 32)
reference Operation.sra sa rs rt = sar64 rt sa
reference Operation.srav sa rs rt = sar64 rt (rs % 32)
reference Operation.dsra sa rs rt = sar64 rt sa
reference Operation.dsra32 sa rs rt = sar64 rt (sa + 32)
reference Operation.dsrav sa rs rt = sar64 rt (rs % 64)

-- What the fields that an instruction does not use have to be; the operand of an arithmetic shift
-- of a word is a word that is sign-extended, as the architecture asks.
unfoldable pub IsEncoded : Operation → ℕ → ℕ → ℕ → Type 0
IsEncoded Operation.sll sa rs rt = rs ≡ 0
IsEncoded Operation.sllv sa rs rt = sa ≡ 0
IsEncoded Operation.sra sa rs rt = rt ≡ sext32 rt
IsEncoded Operation.srav sa rs rt = rt ≡ sext32 rt
IsEncoded other sa rs rt = Unit

-- How a function ends: NOR with an interlock, all others at once.
unfoldable pub completed : Operation → Vr4300 → ℕ × Vr4300
completed Operation.nor c = do_mci c 57
completed other c = (0, c)

pub data WithImmediate : Type 0 where
  addi addiu slti sltiu andi ori xori lui daddi daddiu : WithImmediate

-- The codes of the architecture, in the top six bits.
unfoldable pub primary_code : WithImmediate → ℕ
primary_code WithImmediate.addi = 8
primary_code WithImmediate.addiu = 9
primary_code WithImmediate.slti = 10
primary_code WithImmediate.sltiu = 11
primary_code WithImmediate.andi = 12
primary_code WithImmediate.ori = 13
primary_code WithImmediate.xori = 14
primary_code WithImmediate.lui = 15
primary_code WithImmediate.daddi = 24
primary_code WithImmediate.daddiu = 25

-- The result, from the 16 bits of the immediate and the register. LUI reads register 0.
unfoldable pub immediate_result : WithImmediate → ℕ → ℕ → ℕ
immediate_result WithImmediate.addi imm rs = sext32 (rs + sext16 imm)
immediate_result WithImmediate.addiu imm rs = sext32 (rs + sext16 imm)
immediate_result WithImmediate.slti imm rs = if ltb (biased rs) (biased (sext16 imm)) then 1 else 0
immediate_result WithImmediate.sltiu imm rs = if ltb rs (sext16 imm) then 1 else 0
immediate_result WithImmediate.andi imm rs = bit_and rs (u16 imm)
immediate_result WithImmediate.ori imm rs = bit_or rs (u16 imm)
immediate_result WithImmediate.xori imm rs = bit_xor rs (u16 imm)
immediate_result WithImmediate.lui imm rs = sext32 (rs + u16 imm * 2 ^ 16)
immediate_result WithImmediate.daddi imm rs = u64 (rs + sext16 imm)
immediate_result WithImmediate.daddiu imm rs = u64 (rs + sext16 imm)
