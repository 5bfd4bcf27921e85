-- ===== src/StorageBackend.antt =====
-- firmware/src/storage_backend.c and firmware/include/storage_backend.h: two flash sectors, each
-- with one slot. A sector is the list of the bytes programmed since its erasure; a byte behind
-- the list's end reads as 0xFF. The HAL is outside the repository: what its calls return in one
-- operation, and what a failed one leaves in the sector, is an argument of that operation, and
-- `FLASH_BASE` is the parameter `flash_base`. The structure is laid out little-endian with the
-- three bytes of padding of a 32-bit ABI behind `crc8`. A read asks for the whole sector, which
-- is more than the structure on the stack holds; the model keeps what the structure sees.
pub mod Calls
pub mod Header
pub mod Written
pub mod Latest
pub mod Generations
pub mod Roundtrip
pub mod Lost
pub mod Corrupt
pub mod Wipe
mod Tests
use safe_key_vault.Prelude.{
  ℕ, zero, suc, ◌+◌, ◌-◌, ◌*◌, ◌/◌, ◌%◌, ◌^◌, Bool, true, false, ◌&&◌, ◌||◌, not, Option, none,
  some, List, [], ◌∷◌, ◌++◌, bit_xor, drop, set, length, get_or, ltb, leb, ◌==◌, if◌then◌else◌,
}

abbrev pub Bytes : Type 0
Bytes = List ℕ

pub data Sector : Type 0 where
  sector_a sector_b : Sector

-- `FLASH_SECTOR_A_ADDR` is 0x08000000 and `FLASH_SECTOR_B_ADDR` is 0x08004000.
unfoldable pub address : Sector → ℕ
address Sector.sector_a = 134217728
address Sector.sector_b = 134234112

abbrev pub flash_sector_size : ℕ
flash_sector_size = 16384

abbrev pub flash_bank_size : ℕ
flash_bank_size = 2097152

abbrev pub max_payload : ℕ
max_payload = 256

-- `g_storage_initialized` and the two sectors.
pub record Storage : Type 0 where
  pub initialized : Bool
  pub at_a : Bytes
  pub at_b : Bytes

abbrev pub sector : Storage → Sector → Bytes
sector s Sector.sector_a = s.at_a
sector s Sector.sector_b = s.at_b

abbrev pub put : Storage → Sector → Bytes → Storage
put s Sector.sector_a bytes = record s { at_a = bytes }
put s Sector.sector_b bytes = record s { at_b = bytes }

-- `calculate_crc8`: the exclusive or of the bytes.
abbrev pub crc_from : ℕ → Bytes → ℕ
crc_from crc [] = crc
crc_from crc (x ∷ xs) = crc_from (bit_xor crc x) xs

abbrev pub calculate_crc8 : Bytes → ℕ
calculate_crc8 data_bytes = crc_from 0 data_bytes

-- The first n bytes of a sector.
unfoldable pub read_bytes : Bytes → ℕ → Bytes
read_bytes bytes zero = []
read_bytes [] (suc n) = 255 ∷ read_bytes [] n
read_bytes (x ∷ bytes) (suc n) = x ∷ read_bytes bytes n

abbrev pub byte_at : Bytes → ℕ → ℕ
byte_at bytes i = get_or bytes i 255

-- A `uint32_t` in memory, stored and loaded.
abbrev pub le32 : ℕ → Bytes
le32 n = n % 256 ∷ n / 256 % 256 ∷ n / 65536 % 256 ∷ n / 16777216 % 256 ∷ []

abbrev pub word : ℕ → ℕ → ℕ → ℕ → ℕ
word b0 b1 b2 b3 = b0 + b1 * 256 + b2 * 65536 + b3 * 16777216

-- `header.generation`, `header.schema_version`, `header.payload_len` and `header.crc8[0]`.
abbrev pub generation : Bytes → ℕ
generation s = word (byte_at s 0) (byte_at s 1) (byte_at s 2) (byte_at s 3)

abbrev pub schema_version : Bytes → ℕ
schema_version s = word (byte_at s 4) (byte_at s 5) (byte_at s 6) (byte_at s 7)

abbrev pub payload_len : Bytes → ℕ
payload_len s = word (byte_at s 8) (byte_at s 9) (byte_at s 10) (byte_at s 11)

abbrev pub crc8 : Bytes → ℕ
crc8 s = byte_at s 12

-- The first n bytes of `slot->payload`.
abbrev pub payload_of : Bytes → ℕ → Bytes
payload_of s n = read_bytes (drop 16 s) n

-- The two range checks that `read_flash_sector` and `write_flash_sector` begin with.
unfoldable pub in_flash : ℕ → ℕ → ℕ → Bool
in_flash flash_base addr size =
    not (ltb addr flash_base || leb (flash_base + flash_bank_size) addr)
    && not (ltb flash_sector_size size || ltb (flash_base + flash_bank_size) (addr + size))

unfoldable pub read_flash_sector : ℕ → Storage → Sector → Option Bytes
unfolding in_flash address
read_flash_sector flash_base s x =
    if in_flash flash_base (address x) flash_sector_size then some (sector s x) else none

-- What the HAL does in one call of `write_flash_sector`: `words_ok` is the number of words that
-- are programmed before `HAL_FLASH_Program` fails.
pub record FlashRun : Type 0 where
  pub unlock_ok : Bool
  pub erase_ok : Bool
  pub failed_erase : Bytes
  pub words_ok : ℕ
  pub failed_program : Bytes
  pub lock_ok : Bool

-- The loop over the words: the sector's bytes, and whether every call succeeded.
unfoldable pub program_words : ℕ → Bytes → Bytes → Bytes × Bool
program_words n failed [] = ([], true)
program_words zero failed (b ∷ rest) = (failed, false)
program_words (suc n) failed (b0 ∷ b1 ∷ b2 ∷ b3 ∷ rest) =
    let (bytes, done) = program_words n failed rest in (b0 ∷ b1 ∷ b2 ∷ b3 ∷ bytes, done)
program_words (suc n) failed (b0 ∷ []) = (b0 ∷ 0 ∷ 0 ∷ 0 ∷ [], true)
program_words (suc n) failed (b0 ∷ b1 ∷ []) = (b0 ∷ b1 ∷ 0 ∷ 0 ∷ [], true)
program_words (suc n) failed (b0 ∷ b1 ∷ b2 ∷ []) = (b0 ∷ b1 ∷ b2 ∷ 0 ∷ [], true)

unfoldable pub write_flash_sector : ℕ → FlashRun → Storage → Sector → Bytes → Storage × Bool
unfolding in_flash address program_words
write_flash_sector flash_base hal s x data_bytes =
    if not (in_flash flash_base (address x) (length data_bytes))
    then (s, false)
    else if not hal.unlock_ok
    then (s, false)
    else if not hal.erase_ok
    then (put s x hal.failed_erase, false)
    else let (bytes, done) = program_words hal.words_ok hal.failed_program data_bytes in
      (put s x bytes, done && hal.lock_ok)

unfoldable pub is_slot_valid : Bytes → Bool
is_slot_valid slot =
    if payload_len slot == 0 || ltb max_payload (payload_len slot)
    then false
    else calculate_crc8 (read_bytes slot 15) == crc8 slot

abbrev pub get_slot_generation : Bytes → ℕ
get_slot_generation slot = if payload_len slot == 0 then 0 else generation slot

unfoldable pub slot_newer : Bytes → Bytes → Bool
slot_newer a b =
    if payload_len a == 0
    then false
    else if payload_len b == 0
    then true
    else ltb (get_slot_generation b) (get_slot_generation a)

unfoldable pub storage_backend_init : Storage → Storage
storage_backend_init s = if s.initialized then s else record s { initialized = true }

-- `slot_x_read_ok && is_slot_valid(&slot_x)`.
unfoldable pub valid_at : ℕ → Storage → Sector → Bool
unfolding read_flash_sector is_slot_valid
valid_at flash_base s x = elim (read_flash_sector flash_base s x) [
  | none ↦ false
  | some slot ↦ is_slot_valid slot
]

unfoldable pub next_generation : ℕ → Storage → ℕ
unfolding valid_at
next_generation flash_base s =
    let a = generation s.at_a in
    let b = generation s.at_b in
    if valid_at flash_base s Sector.sector_a && valid_at flash_base s Sector.sector_b
    then ((if ltb b a then a else b) + 1) % 2 ^ 32
    else if valid_at flash_base s Sector.sector_a
    then (a + 1) % 2 ^ 32
    else if valid_at flash_base s Sector.sector_b
    then (b + 1) % 2 ^ 32
    else 1

unfoldable pub write_address : ℕ → Storage → Sector
unfolding valid_at slot_newer
write_address flash_base s =
    if not (valid_at flash_base s Sector.sector_a)
    then Sector.sector_a
    else if not (valid_at flash_base s Sector.sector_b)
    then Sector.sector_b
    else if slot_newer s.at_a s.at_b
    then Sector.sector_b
    else Sector.sector_a

-- What the stack holds where `new_slot` is not assigned: `crc8`, the padding and the payload's
-- tail.
pub record Junk : Type 0 where
  pub old_crc8 : ℕ
  pub pad0 : ℕ
  pub pad1 : ℕ
  pub pad2 : ℕ
  pub tail : Bytes

-- `new_slot`: the check sum runs over `sizeof(header) - sizeof(crc8)` = 15 bytes, and so over
-- the old `crc8` and two bytes of padding.
unfoldable pub new_slot : Junk → ℕ → ℕ → Bytes → Bytes
unfolding read_bytes
new_slot junk gen schema payload =
    let fields = le32 gen ++ le32 schema ++ le32 (length payload) in
    let crc = calculate_crc8 (fields ++ (junk.old_crc8 ∷ junk.pad0 ∷ junk.pad1 ∷ [])) in
    fields
    ++ (crc ∷ junk.pad0 ∷ junk.pad1 ∷ junk.pad2 ∷ [])
    ++ payload
    ++ read_bytes junk.tail (max_payload - length payload)
