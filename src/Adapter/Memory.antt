-- ===== src/Adapter/Memory.antt =====
-- The linear memory of the guest as adapter.mjs reads and writes it through a DataView: a byte at
-- every address, and little-endian words of 32 bits.
use fram.Prelude.{ℕ, ◌+◌, ◌*◌, ◌/◌, ◌%◌, ◌<◌, ◌≤◌, ◌⊎◌, ◌≡◌, ◌==◌, if◌then◌else◌, arith}

abbrev pub Memory : Type 0
Memory = ℕ → ℕ

-- A memory holds bytes.
abbrev pub IsBytes : Memory → Type 0
IsBytes memory = (at : ℕ) → memory at < 256

unfoldable pub set_byte : ℕ → ℕ → Memory → Memory
set_byte at value memory other = if other == at then value % 256 else memory other

-- `setUint32(at, value, true)`
unfoldable pub set_uint32 : ℕ → ℕ → Memory → Memory
set_uint32 at value memory = set_byte at value (
    set_byte (at + 1) (value / 256)
      (set_byte (at + 2) (value / 65536) (set_byte (at + 3) (value / 16777216) memory)))

-- `getUint32(at, true)`
unfoldable pub get_uint32 : ℕ → Memory → ℕ
get_uint32 at memory =
    memory at + 256 * memory (at + 1) + 65536 * memory (at + 2) + 16777216 * memory (at + 3)

-- The four bytes that a word leaves.
word_bytes :
    (at value : ℕ) (memory : Memory)
    → let after = set_uint32 at value memory in
      (after at ≡ value % 256)
      × (after (at + 1) ≡ value / 256 % 256)
      × (after (at + 2) ≡ value / 65536 % 256)
      × (after (at + 3) ≡ value / 16777216 % 256)
unfolding set_uint32 set_byte
word_bytes at value memory = (ground arith, ground arith, ground arith, ground arith)

-- A word reads back as it was written, within 32 bits.
pub get-set_uint32 :
    (at value : ℕ) (memory : Memory)
    → value < 4294967296
    → get_uint32 at (set_uint32 at value memory) ≡ value
unfolding get_uint32
get-set_uint32 at value memory h = omega (arith, word_bytes at value memory)

set_uint32_other :
    (at value other : ℕ) (memory : Memory)
    → (other < at) ⊎ (at + 4 ≤ other)
    → set_uint32 at value memory other ≡ memory other
unfolding set_uint32 set_byte
set_uint32_other at value other memory h = ground arith

-- A word that lies apart from another is not changed by it.
pub get-set_uint32_other :
    (at value other : ℕ) (memory : Memory)
    → (other + 4 ≤ at) ⊎ (at + 4 ≤ other)
    → get_uint32 other (set_uint32 at value memory) ≡ get_uint32 other memory
unfolding get_uint32
get-set_uint32_other at value other memory h =
    let b0 = set_uint32_other at value other memory (ground arith) in
    let b1 = set_uint32_other at value (other + 1) memory (ground arith) in
    let b2 = set_uint32_other at value (other + 2) memory (ground arith) in
    let b3 = set_uint32_other at value (other + 3) memory (ground arith) in
    omega (arith, b0, b1, b2, b3)
