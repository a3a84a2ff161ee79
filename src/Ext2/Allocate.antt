-- ===== src/Ext2/Allocate.antt =====
-- `ext2_allocate_block` and `ext2_allocate_inode` of src/embext.c. The messages printed are left
-- out.
pub mod First
pub mod Numbering
use embext.Base.{ℕ, zero, suc, ◌+◌, ◌*◌, ◌/◌, true, not, none}
use embext.Base.{bit_and, ltb, ◌==◌, if◌then◌else◌, [], ◌∷◌}
use embext.Driver.{Reply, ok, failed, BlockDriver}
use embext.Ext2.Layout.{BlockGroupDescriptor}
use embext.Ext2.Monad.{
  M, pure, ◌>>=◌, ◌>>◌, get, defined, written, on_volume, set_file, set_superblock, on_reply,
}
use embext.Ext2.State.{Volume, Fs}
use embext.Ext2.State.{u32, ext2_s_ifdir, enospc, eio}
use embext.Ext2.Group.{ext2_get_bg_descriptor, ext2_write_bg_descriptor, ext2_flush_superblock}
use embext.Ext2.Buffer.{ext2_store_buffer, ext2_write_buffer}
use embext.Ext2.Bitmap.{Found, find_clear, ext2_change_allocated, set_bit, dec16, dec32}

-- `most_free_…` and `most_free_…_group`.
pub record MostFree : Type 0 where
  pub count : ℕ
  pub group : ℕ

abbrev pub none_free : MostFree
none_free = record { count = 0; group = 0 }

-- The comparison of one round.
abbrev pub better : MostFree → ℕ → ℕ → MostFree
better best count i = if ltb best.count count then record { count = count; group = i } else best

abbrev pub nothing_found : Found
nothing_found = record { i = 0; j = none; bitmap_byte = 0 }

-- The failure of the search for an inode.
abbrev pub no_inode : {Device : Type 0} → M (Fs Device) (Reply (Unit {0}))
no_inode = do set_file (λ fe. record fe { rerrno = eio }); pure failed

module _ ⦃drv : BlockDriver⦄ where
  -- The loop over the groups from `i` on, with the rounds left; `count` is the field compared.
  unfoldable pub find_most_free :
      (BlockGroupDescriptor → ℕ) → ℕ → ℕ → MostFree → M (Volume drv.Device) MostFree
  find_most_free count zero i best = pure best
  find_most_free count (suc left) i best = do
    reply ← ext2_get_bg_descriptor i
    bg ← written reply
    find_most_free count left (i + 1) (better best (count bg) i)

  -- The block number that the search in a group stands for.
  abbrev pub found_block : ℕ → ℕ → ℕ → ℕ → ℕ
  found_block blocks_per_group group i j = u32 (blocks_per_group * group + i * 8 + j + 1)

  -- What follows the search: 0 is failure. `previous_block` is not used by the source.
  unfoldable pub take_block : ℕ → Found → M (Fs drv.Device) ℕ
  take_block group found = do
    s ← get
    let blocks_per_group = s.volume.context.superblock.s_blocks_per_group
    if not (ltb found.i (blocks_per_group / 8)) then pure 0 else do
      j ← defined found.j
      if not (ltb j 8) then pure 0 else do
        let block_no = found_block blocks_per_group group found.i j
        let for_directory = not (bit_and s.file.inode.i_mode ext2_s_ifdir == 0)
        changed ← on_volume (ext2_change_allocated block_no true for_directory)
        on_reply changed (pure 0) (λ _. pure block_no)

  unfoldable pub ext2_allocate_block : ℕ → M (Fs drv.Device) ℕ
  ext2_allocate_block previous_block = do
    s ← get
    best ← on_volume (
        find_most_free (λ bg. bg.bg_free_blocks_count) s.volume.context.num_blockgroups 0 none_free)
    if best.count == 0 then (do set_file (λ fe. record fe { rerrno = enospc }); pure 0) else do
      reply ← on_volume (ext2_get_bg_descriptor best.group)
      bg ← written reply
      found ←
          find_clear bg.bg_block_bitmap (s.volume.context.superblock.s_blocks_per_group / 8)
            nothing_found
      take_block best.group found

  -- What follows the search. The first half of the guard compares with the bits, not the bytes, of
  -- the bitmap.
  unfoldable pub take_inode :
      ℕ → BlockGroupDescriptor → Found → M (Fs drv.Device) (Reply (Unit {0}))
  take_inode group bg found = do
    s ← get
    let inodes_per_group = s.volume.context.superblock.s_inodes_per_group
    if not (ltb found.i inodes_per_group) then no_inode else do
      j ← defined found.j
      if not (ltb j 8) then no_inode else do
        set_file (λ fe. record fe {
          inode_number = u32 (inodes_per_group * group + found.i * 8 + j + 1);
        })
        ext2_write_buffer (set_bit found.bitmap_byte j ∷ []) found.i
        _ ← ext2_store_buffer
        _ ← on_volume (
            ext2_write_bg_descriptor
              (record bg { bg_free_inodes_count = dec16 bg.bg_free_inodes_count }) group)
        on_volume (
            set_superblock (λ sb. record sb { s_free_inodes_count = dec32 sb.s_free_inodes_count }))
        _ ← on_volume ext2_flush_superblock
        pure (ok tt)

  unfoldable pub ext2_allocate_inode : M (Fs drv.Device) (Reply (Unit {0}))
  ext2_allocate_inode = do
    s ← get
    best ← on_volume (
        find_most_free (λ bg. bg.bg_free_inodes_count) s.volume.context.num_blockgroups 0 none_free)
    if best.count == 0 then (do set_file (λ fe. record fe { rerrno = enospc }); pure failed) else do
      reply ← on_volume (ext2_get_bg_descriptor best.group)
      bg ← written reply
      found ←
          find_clear bg.bg_inode_bitmap (s.volume.context.superblock.s_inodes_per_group / 8)
            nothing_found
      take_inode best.group bg found
