-- ===== src/Cpu/Cache.antt =====
-- vr4300/dcache.c and vr4300/icache.c: the two caches, virtually indexed and physically tagged.
-- The data of a line is kept as words of the host, a pointer to a line as the line.

use cen.Base.{
  ℕ, Bool, ◌&&◌, Option, none, some, bit_and, bit_or, ◌==◌, if◌then◌else◌, u32, not32, ◌>>>◌, ◌<<<◌,
  update,
}

-- struct vr4300_dcache_line, with four words, and struct vr4300_icache_line, with eight.
pub record Line : Type 0 where
  pub words : ℕ → ℕ
  pub metadata : ℕ

-- The 512 lines of a cache.
abbrev pub Lines : Type 0
Lines = ℕ → Line

-- `paddr & ~0xFFFU`.
abbrev pub page_of : ℕ → ℕ
page_of paddr = bit_and paddr (not32 0xFFF)

abbrev pub get_tag : Line → ℕ
get_tag line = bit_and line.metadata (not32 0xFFF)

abbrev pub is_valid : Line → Bool
is_valid line = bit_and line.metadata 0x1 == 0x1

abbrev pub is_dirty : Line → Bool
is_dirty line = bit_and line.metadata 0x2 == 0x2

abbrev pub invalidate_line : Line → Line
invalidate_line line = record line { metadata = bit_and line.metadata (not32 0x1) }

abbrev pub set_dirty : Line → Line
set_dirty line = record line { metadata = bit_or line.metadata 0x2 }

abbrev pub set_tag : Line → ℕ → Line
set_tag line tag = record line { metadata = bit_or tag (bit_and line.metadata 0x1) }

abbrev pub validate_line : Line → ℕ → Line
validate_line line tag = record line { metadata = bit_or tag 0x1 }

-- The test of a probe and of the operations on a hit.
abbrev pub hits : Line → ℕ → Bool
hits line paddr = (get_tag line == page_of paddr) && is_valid line

abbrev pub hit : Line → ℕ → Option Line
hit line paddr = if hits line paddr then some line else none

-- A fill: the data, then the tag.
abbrev pub filled : Line → ℕ → (ℕ → ℕ) → Line
filled line paddr words = validate_line (record line { words = words }) (page_of paddr)

abbrev pub dcache_index : ℕ → ℕ
dcache_index vaddr = bit_and (vaddr >>> 4) 0x1FF

abbrev pub icache_index : ℕ → ℕ
icache_index vaddr = bit_and (vaddr >>> 5) 0x1FF

abbrev pub get_line : Lines → ℕ → Line
get_line dcache vaddr = dcache (dcache_index vaddr)

abbrev pub set_line : Lines → ℕ → Line → Lines
set_line dcache vaddr line = update dcache (dcache_index vaddr) line

unfoldable pub dcache_create_dirty_exclusive : Lines → ℕ → ℕ → Lines
dcache_create_dirty_exclusive dcache vaddr paddr =
    let tagged = set_tag (get_line dcache vaddr) (page_of paddr) in
    set_line dcache vaddr (record tagged { metadata = bit_or tagged.metadata 0x3 })

unfoldable pub dcache_fill : Lines → ℕ → ℕ → (ℕ → ℕ) → Lines
dcache_fill dcache vaddr paddr words =
    set_line dcache vaddr (filled (get_line dcache vaddr) paddr words)

unfoldable pub dcache_get_tag : Line → ℕ → ℕ
dcache_get_tag line vaddr = bit_or (get_tag line) (bit_and vaddr 0xFF0)

unfoldable pub dcache_get_taglo : Lines → ℕ → ℕ
dcache_get_taglo dcache vaddr =
    let metadata = (get_line dcache vaddr).metadata in
    let taglo = bit_or (bit_and metadata 0x1 <<< 1) (bit_and metadata 0x2 >>> 1) in
    bit_or (taglo <<< 6) (bit_and (metadata >>> 4) 0x0FFFFF00)

unfoldable pub dcache_invalidate_hit : Lines → ℕ → ℕ → Lines
dcache_invalidate_hit dcache vaddr paddr =
    let line = get_line dcache vaddr in
    if hits line paddr then set_line dcache vaddr (invalidate_line line) else dcache

unfoldable pub dcache_probe : Lines → ℕ → ℕ → Option Line
dcache_probe dcache vaddr paddr = hit (get_line dcache vaddr) paddr

unfoldable pub dcache_set_taglo : Lines → ℕ → ℕ → Lines
dcache_set_taglo dcache vaddr taglo =
    let line = get_line dcache vaddr in
    let tag = bit_and (u32 (taglo <<< 4)) 0xFFFFF000 in
    let valid = bit_and (taglo >>> 7) 0x1 in
    let dirty = bit_and (taglo >>> 5) 0x2 in
    set_line dcache vaddr (record line { metadata = bit_or (bit_or tag valid) dirty })

unfoldable pub dcache_should_flush_line : Lines → ℕ → Option Line
dcache_should_flush_line dcache vaddr =
    let line = get_line dcache vaddr in if is_dirty line && is_valid line then some line else none

-- The line is returned after it has been invalidated.
unfoldable pub dcache_wb_invalidate : Lines → ℕ → Option (Line × Lines)
dcache_wb_invalidate dcache vaddr =
    let line = get_line dcache vaddr in
    let line' = invalidate_line line in
    if is_valid line then some (line', set_line dcache vaddr line') else none

abbrev pub get_icache_line : Lines → ℕ → Line
get_icache_line icache vaddr = icache (icache_index vaddr)

abbrev pub set_icache_line : Lines → ℕ → Line → Lines
set_icache_line icache vaddr line = update icache (icache_index vaddr) line

unfoldable pub icache_fill : Lines → ℕ → ℕ → (ℕ → ℕ) → Lines
icache_fill icache vaddr paddr words =
    set_icache_line icache vaddr (filled (get_icache_line icache vaddr) paddr words)

unfoldable pub icache_get_tag : Lines → ℕ → ℕ
icache_get_tag icache vaddr = bit_or (get_tag (get_icache_line icache vaddr)) (bit_and vaddr 0xFE0)

unfoldable pub icache_invalidate : Lines → ℕ → Lines
icache_invalidate icache vaddr =
    set_icache_line icache vaddr (invalidate_line (get_icache_line icache vaddr))

unfoldable pub icache_invalidate_hit : Lines → ℕ → ℕ → Lines
icache_invalidate_hit icache vaddr paddr =
    let line = get_icache_line icache vaddr in
    if hits line paddr then set_icache_line icache vaddr (invalidate_line line) else icache

unfoldable pub icache_probe : Lines → ℕ → ℕ → Option Line
icache_probe icache vaddr paddr = hit (get_icache_line icache vaddr) paddr

unfoldable pub icache_set_taglo : Lines → ℕ → ℕ → Lines
icache_set_taglo icache vaddr taglo =
    let line = get_icache_line icache vaddr in
    let tag = bit_and (u32 (taglo <<< 4)) 0xFFFFF000 in
    set_icache_line icache vaddr (record line { metadata = bit_or tag (bit_and (taglo >>> 7) 0x1) })
