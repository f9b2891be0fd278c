-- ===== src/Base/Memory.antt =====
-- Byte-addressed memory as a function from offsets to bytes.
use Prim.Native.Nat.{ℕ, ◌+◌, ◌-◌, ◌*◌, ◌/◌, ◌%◌, ◌^◌, ◌≤◌, ◌<◌}
use mathlib.Core.Path.{◌≡◌, ap, ◌∙◌}
use mathlib.Core.Logic.{◌⊎◌}
use mathlib.Core.Bool.{◌&&◌}
use native.Mathlib.Omega.{arith}
use cen.Base.Tests.{ltb, leb, ◌==◌, if◌then◌else◌}

abbrev pub Bytes : Type 0
Bytes = ℕ → ℕ

-- Replaces the value at one index; also used for register files.
abbrev pub update {ℓ} : {A : Type ℓ} (table : ℕ → A) (at : ℕ) (value : A) → ℕ → A
update table at value k = if at == k then value else table k

-- memcpy of n bytes from src + from to dst + to, where the regions do not overlap.
abbrev pub copy : Bytes → ℕ → Bytes → ℕ → ℕ → Bytes
copy dst to src from n i = if leb to i && ltb i (to + n) then src (from + (i - to)) else dst i

-- memset of n bytes.
abbrev pub fill : Bytes → ℕ → ℕ → ℕ → Bytes
fill dst to v n i = if leb to i && ltb i (to + n) then v else dst i

-- A 32-bit word as the (little-endian) host keeps it.
abbrev pub load32 : Bytes → ℕ → ℕ
load32 m i = m i + m (i + 1) * 2 ^ 8 + m (i + 2) * 2 ^ 16 + m (i + 3) * 2 ^ 24

abbrev pub store32 : Bytes → ℕ → ℕ → Bytes
store32 m i w =
    update
      (update (update (update m i (w % 2 ^ 8)) (i + 1) (w / 2 ^ 8 % 2 ^ 8)) (i + 2)
        (w / 2 ^ 16 % 2 ^ 8))
      (i + 3) (w / 2 ^ 24 % 2 ^ 8)

-- The four bytes of a word in the opposite order.
abbrev pub byteswap_32 : ℕ → ℕ
byteswap_32 w =
    w / 2 ^ 24 % 2 ^ 8
    + w / 2 ^ 16 % 2 ^ 8 * 2 ^ 8
    + w / 2 ^ 8 % 2 ^ 8 * 2 ^ 16
    + w % 2 ^ 8 * 2 ^ 24

abbrev pub IsBytes : Bytes → Type 0
IsBytes m = (i : ℕ) → m i < 256

-- A big-endian word, as the N64 sees memory.
pub load_be : Bytes → ℕ → ℕ
load_be m i = byteswap_32 (load32 m i)

pub load_be_lem :
    (m : Bytes) (i : ℕ)
    → IsBytes m
    → load_be m i ≡ m i * 2 ^ 24 + m (i + 1) * 2 ^ 16 + m (i + 2) * 2 ^ 8 + m (i + 3)
unfolding load_be
load_be_lem m i h = omega (arith, h i, h (i + 1), h (i + 2), h (i + 3))

store32_bytes :
    (m : Bytes) (i w : ℕ)
    → (store32 m i w i ≡ w % 2 ^ 8)
      × (store32 m i w (i + 1) ≡ w / 2 ^ 8 % 2 ^ 8)
      × (store32 m i w (i + 2) ≡ w / 2 ^ 16 % 2 ^ 8)
      × (store32 m i w (i + 3) ≡ w / 2 ^ 24 % 2 ^ 8)
store32_bytes m i w = (ground arith, ground arith, ground arith, ground arith)

load32-store32 : (m : Bytes) (i w : ℕ) → w < 2 ^ 32 → load32 (store32 m i w) i ≡ w
load32-store32 m i w h = let b = store32_bytes m i w in rw (b.0, b.1, b.2, b.3) (omega arith)

byteswap_32-twice : (w : ℕ) → w < 2 ^ 32 → byteswap_32 (byteswap_32 w) ≡ w
byteswap_32-twice w h = omega arith

pub load_be-store_self :
    (m : Bytes) (i w : ℕ) → w < 2 ^ 32 → load_be (store32 m i (byteswap_32 w)) i ≡ w
unfolding load_be
load_be-store_self m i w h =
    ap byteswap_32 (load32-store32 m i (byteswap_32 w) (omega arith)) ∙ byteswap_32-twice w h

pub load_be-store_far :
    (m : Bytes) (i j w : ℕ) → (i + 4 ≤ j) ⊎ (j + 4 ≤ i) → load_be (store32 m i w) j ≡ load_be m j
unfolding load_be
load_be-store_far m i j w h = ground arith

pub store32-IsBytes : (m : Bytes) (i w : ℕ) → IsBytes m → IsBytes (store32 m i w)
store32-IsBytes m i w h j = ground (arith, h j)
