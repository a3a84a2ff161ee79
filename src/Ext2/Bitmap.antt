-- ===== src/Ext2/Bitmap.antt =====
-- The block and inode bitmaps: `ext2_change_allocated` of src/embext.c, and the search for a clear
-- bit that `ext2_allocate_block` and `ext2_allocate_inode` share.
pub mod Bits
pub mod Change
pub mod Device
use embext.Base.{ℕ, zero, suc, ◌+◌, ◌-◌, ◌/◌, ◌%◌, ◌^◌, Bool, true, false, not}
use embext.Base.{Option, none, some, List, bit_and, bit_or, leb, ◌==◌, if◌then◌else◌}
use embext.Base.{get_elem?, set, get_or}
use embext.Driver.{Reply, ok, failed, BlockDriver, block_size}
use embext.Fault.{checked_div, checked_mod}
use embext.Ext2.Layout.{Superblock, BlockGroupDescriptor}
use embext.Ext2.Monad.{
  M, pure, ◌>>=◌, ◌>>◌, get, defined, written, set_context, set_superblock, on_reply,
}
use embext.Ext2.State.{Volume, Fs}
use embext.Ext2.State.{u16, u32}
use embext.Ext2.Sector.{read_sysbuf, write_sysbuf}
use embext.Ext2.Group.{ext2_get_bg_descriptor, ext2_write_bg_descriptor}
use embext.Ext2.Buffer.{ext2_load_buffer, ext2_read_buffer}

-- `byte & (1 << bit)`, `byte |= (1 << bit)` and `byte &= ~(1 << bit)` of a `uint8_t`.
unfoldable pub test_bit : ℕ → ℕ → Bool
test_bit byte bit = not (bit_and byte (2 ^ bit) == 0)

unfoldable pub set_bit : ℕ → ℕ → ℕ
set_bit byte bit = bit_or byte (2 ^ bit)

unfoldable pub clear_bit : ℕ → ℕ → ℕ
clear_bit byte bit = bit_and byte (255 - 2 ^ bit)

-- `++` and `--` of a `uint16_t` and of a `uint32_t`.
abbrev pub inc16 : ℕ → ℕ
inc16 n = u16 (n + 1)

abbrev pub dec16 : ℕ → ℕ
dec16 n = u16 (n + 2 ^ 16 - 1)

abbrev pub inc32 : ℕ → ℕ
inc32 n = u32 (n + 1)

abbrev pub dec32 : ℕ → ℕ
dec32 n = u32 (n + 2 ^ 32 - 1)

-- Step 2 of `ext2_change_allocated`: the counts of the group.
unfoldable pub count_block : Bool → Bool → BlockGroupDescriptor → BlockGroupDescriptor
count_block true for_directory bg = record bg {
  bg_free_blocks_count = dec16 bg.bg_free_blocks_count;
  bg_used_dirs_count = if for_directory then inc16 bg.bg_used_dirs_count else bg.bg_used_dirs_count;
}
count_block false for_directory bg = record bg {
  bg_free_blocks_count = inc16 bg.bg_free_blocks_count;
  bg_used_dirs_count = if for_directory then dec16 bg.bg_used_dirs_count else bg.bg_used_dirs_count;
}

-- Step 3: the count of the superblock.
unfoldable pub count_free : Bool → Superblock → Superblock
count_free allocated sb = record sb {
  s_free_blocks_count =
      if allocated then dec32 sb.s_free_blocks_count else inc32 sb.s_free_blocks_count;
}

-- The index of the byte of a bit in its sector.
abbrev pub byte_index : ℕ → ℕ
byte_index bitmap_offset = bitmap_offset / 8 % block_size

-- Step 1 in memory: the sector with the bit changed, `failed` if it has the value already.
unfoldable pub change_bit : Bool → ℕ → List ℕ → Option (Reply (List ℕ))
change_bit allocated bitmap_offset sysbuf = elim (get_elem? sysbuf (byte_index bitmap_offset)) [
  | none ↦ none
  | some byte ↦
      if test_bit byte (bitmap_offset % 8)
      then if allocated
        then some failed
        else some (ok (set sysbuf (byte_index bitmap_offset) (clear_bit byte (bitmap_offset % 8))))
      else if allocated
      then some (ok (set sysbuf (byte_index bitmap_offset) (set_bit byte (bitmap_offset % 8))))
      else some failed
]

-- The first clear bit of a byte, 8 if all are set.
unfoldable pub first_clear : ℕ → ℕ → ℕ → ℕ
first_clear zero j byte = j
first_clear (suc left) j byte = if test_bit byte j then first_clear left (j + 1) byte else j

-- Where the search for a clear bit stopped: the byte's index, the bit, and the byte last read.
pub record Found : Type 0 where
  pub i : ℕ
  pub j : Option ℕ
  pub bitmap_byte : ℕ

module _ ⦃drv : BlockDriver⦄ where
  -- `allocated` is `true` for `EXT2_ALLOCATED`.
  unfoldable pub ext2_change_allocated : ℕ → Bool → Bool → M (Volume drv.Device) (Reply (Unit {0}))
  ext2_change_allocated block allocated for_directory = do
    v ← get
    block_group ← defined (checked_div block v.context.superblock.s_blocks_per_group)
    bitmap_offset ← defined (checked_mod block v.context.superblock.s_blocks_per_group)
    reply ← ext2_get_bg_descriptor block_group
    bg ← written reply
    let sector =
        u32 (u32 (bg.bg_block_bitmap + bitmap_offset / 8 / block_size) + v.context.part_start)
    read_sysbuf sector
    v ← get
    changed ← defined (change_bit allocated bitmap_offset v.context.sysbuf)
    on_reply changed (pure failed) λ sysbuf. do
      set_context (λ c. record c { sysbuf = sysbuf })
      write_sysbuf sector
      _ ← ext2_write_bg_descriptor (count_block allocated for_directory bg) block_group
      set_superblock (count_free allocated)
      pure (ok tt)

  -- The loop over the bytes of the bitmap in block `bitmap`, from byte `i`, with the rounds left.
  unfoldable pub find_clear : ℕ → ℕ → Found → M (Fs drv.Device) Found
  find_clear bitmap zero found = pure found
  find_clear bitmap (suc left) found = do
    _ ← ext2_load_buffer bitmap found.i
    bytes ← ext2_read_buffer found.i 1
    let bitmap_byte = get_or bytes 0 0
    let j = first_clear 8 0 bitmap_byte
    if leb 8 j
        then find_clear bitmap left
            (record { i = found.i + 1; j = some j; bitmap_byte = bitmap_byte })
        else pure (record { i = found.i; j = some j; bitmap_byte = bitmap_byte })
