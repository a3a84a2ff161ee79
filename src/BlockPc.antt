-- ===== src/BlockPc.antt =====
-- src/block_drivers/block_pc.c: a driver over a filesystem image held in memory. `fopen`, `fread`
-- and `malloc` are outside: `block_init` takes the file's bytes and whether each call succeeds.
pub mod Laws
pub mod Alias
mod Tests
use embext.Base.{ℕ, ◌+◌, ◌-◌, ◌*◌, ◌/◌, ◌%◌, ◌^◌, Bool, true, false, Option, none, some}
use embext.Base.{List, [], length, ltb, leb, if◌then◌else◌, slice, splice}
use embext.Driver.{Reply, ok, failed, block_size}
use embext.Fault.{◌>>=◌}

-- The globals `blocks`, `block_fs_size` and `block_ro`, the last as the 32 bits of the `int`.
pub record Pc : Type 0 where
  pub blocks : List ℕ
  pub block_fs_size : ℕ
  pub block_ro : ℕ

-- `(block + 1) * BLOCK_SIZE - 1 > block_fs_size`, in `uint32_t` arithmetic.
unfoldable pub past_end : ℕ → ℕ → Bool
past_end block block_fs_size =
    ltb block_fs_size (((block + 1) % 2 ^ 32 * block_size % 2 ^ 32 + 2 ^ 32 - 1) % 2 ^ 32)

-- `block * BLOCK_SIZE`, in `uint32_t` arithmetic.
unfoldable pub byte_offset : ℕ → ℕ
byte_offset block = block * block_size % 2 ^ 32

-- A `memcpy` that leaves the image is undefined.
unfoldable pub block_read : ℕ → Pc → Option (Reply (List ℕ))
block_read block d =
    if past_end block d.block_fs_size
    then some failed
    else do bytes ← slice d.blocks (byte_offset block) block_size; some (ok bytes)

pub block_write : ℕ → List ℕ → Pc → Option (Reply Pc)
block_write block buffer d = if past_end block d.block_fs_size then some failed else do
  image ← splice d.blocks (byte_offset block) buffer
  some (ok (record d { blocks = image }))

-- The image file: what `fopen` finds, and whether `malloc` and `fread` succeed.
pub record Image : Type 0 where
  pub bytes : Option (List ℕ)
  pub memory : Bool
  pub readable : Bool

pub block_init : Image → ℕ → Reply Pc
block_init image ro = elim image.bytes [
  | none ↦ failed
  | some bytes ↦
      if ltb (length bytes) (2048 * 1024 * 1024)
      then if image.memory
        then if image.readable
          then ok (record { blocks = bytes; block_fs_size = length bytes; block_ro = ro })
          else failed
        else failed
      else failed
]

unfoldable pub block_get_volume_size : Pc → ℕ
block_get_volume_size d = d.block_fs_size / block_size % 2 ^ 32

unfoldable pub block_get_device_read_only : Pc → ℕ
block_get_device_read_only d = d.block_ro

pub block_pc_set_ro : Pc → Pc
block_pc_set_ro d = record d { block_ro = 2 ^ 32 - 1 }

pub block_pc_set_rw : Pc → Pc
block_pc_set_rw d = record d { block_ro = 0 }
