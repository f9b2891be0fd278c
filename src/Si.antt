-- ===== src/Si.antt =====
-- The serial interface (SI) with the PIF behind it: si/controller.c, si/controller.h, si/pak.c,
-- si/pak_transfer.c, si/rtc.c and si/cic.c. The release build is modelled: it defines NDEBUG, so an
-- `assert` does nothing. A buffer is a function from offsets to bytes.
pub mod Eeprom
pub mod Rtc
pub mod Pak
pub mod Cic
pub mod Gb
pub mod Pif
pub mod Registers
pub mod Tests
