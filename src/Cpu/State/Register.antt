-- ===== src/Cpu/State/Register.antt =====
-- The numbers of the registers that the code names, from vr4300/cpu.h and vr4300/cp0.h.
use cen.Base.{ℕ}

abbrev pub register_ra : ℕ
register_ra = 31

abbrev pub cp0_random : ℕ
cp0_random = 33

abbrev pub cp0_status : ℕ
cp0_status = 44

abbrev pub cp0_cause : ℕ
cp0_cause = 45

abbrev pub cp0_epc : ℕ
cp0_epc = 46

abbrev pub cp0_config : ℕ
cp0_config = 48

abbrev pub cp0_errorepc : ℕ
cp0_errorepc = 62

abbrev pub register_hi : ℕ
register_hi = 96

abbrev pub register_lo : ℕ
register_lo = 97

abbrev pub pipeline_cycle_type : ℕ
pipeline_cycle_type = 100
