-- ===== src/Ext2/Transfer/Selected.antt =====
-- The buffer that `ext2_select_buffer` fills below the first twelve blocks of a file, on a volume
-- of 1024-byte blocks.
use embext.Base.{ℕ, zero, suc, ◌∙◌, ◌+◌, ◌-◌, ◌*◌, ◌/◌, ◌%◌, ◌^◌, ◌<◌, ◌≡◌, ◌≢◌, arith, some}
use embext.Base.{List, length, get_elem?}
use embext.Base.{lt→ltb, get_elem?-lt}
use embext.Driver.{BlockDriver, ok}
use embext.Ext2.Monad.{◌>>=◌}
use embext.Ext2.State.{Fs, u32, u64, ext2_block_size, embext_magic}
use embext.Ext2.Buffer.{lba_of, ext2_load_buffer, ext2_store_buffer}
use embext.Ext2.Buffer.Loaded.{loaded, stored, load_sector, load-clean, load_through}
use embext.Ext2.BlockMap.{no_block, block_of_index, ext2_block_from_offset, ext2_select_buffer}
use embext.Ext2.BlockMap.Tree.{block_of_index-behind}

module _ ⦃drv : BlockDriver⦄ where
  -- A file of such a volume with the cursor in its block `b`, one of the first twelve, which is
  -- allocated, and a clean buffer; `bytes` is the sector of the device under the cursor.
  pub record IsAtDirect (s : Fs drv.Device) (b : ℕ) (bytes : List ℕ) : Type 0 where
    pub opened : s.file.magic ≡ embext_magic
    pub small_blocks : s.volume.context.superblock.s_log_block_size ≡ 0
    pub pointers : length s.file.inode.i_block ≡ 15
    pub below : s.file.cursor < 12 * 1024
    pub pointer : get_elem? s.file.inode.i_block (s.file.cursor / 1024) ≡ some b
    pub allocated : b ≢ 0
    pub clean : s.file.buffer.dirty ≡ 0
    pub read :
        drv.block_read (load_sector s b (s.file.cursor % 1024)) s.volume.device ≡ some (ok bytes)
    pub sized : length bytes ≡ 512

  pub block_size_1024 :
      (s : Fs drv.Device)
      → s.volume.context.superblock.s_log_block_size ≡ 0
      → ext2_block_size s.volume.context ≡ 1024
  unfolding ext2_block_size
  block_size_1024 s e = rw e

  from_offset :
      (s : Fs drv.Device) (offset : ℕ)
      → s.volume.context.superblock.s_log_block_size ≡ 0
      → ext2_block_from_offset offset s ≡ block_of_index 256 (u32 (offset / 1024)) s
  unfolding ext2_block_from_offset ◌>>=◌
  from_offset s offset e = rw (block_size_1024 s e)

  direct :
      (s : Fs drv.Device) (index b : ℕ)
      → index < 12
      → get_elem? s.file.inode.i_block index ≡ some b
      → block_of_index 256 index s ≡ some (b, s)
  unfolding block_of_index ◌>>=◌
  direct s index b lt at = ground (arith, lt→ltb index 12 lt, at)

  direct_at :
      (s : Fs drv.Device) (j index b : ℕ)
      → j ≡ index
      → index < 12
      → get_elem? s.file.inode.i_block index ≡ some b
      → block_of_index 256 j s ≡ some (b, s)
  direct_at s j index b e lt at = rw e (direct s index b lt at)

  -- The index that the source computes for the block before block `i`.
  abbrev before : ℕ → ℕ
  before i = u32 (u64 ((i + 2 ^ 64 - 1) * 1024) / 1024)

  -- The block before the one under the cursor is resolved too, if only to be ignored.
  previous :
      (s : Fs drv.Device) (i : ℕ)
      → length s.file.inode.i_block ≡ 15
      → i < 12
      → (p : ℕ) × (block_of_index 256 (before i) s ≡ some (p, s))
  previous s zero pointers below =
      (no_block, block_of_index-behind 256 (before 0) s (omega arith) (omega arith) (omega arith))
  previous s (suc k) pointers below =
      let e : before (suc k) ≡ k = omega arith in
      let (b, at) = get_elem?-lt s.file.inode.i_block k (omega arith) in
      (b, direct_at s (before (suc k)) k b e (omega arith) at)

  abbrev pub under_cursor : Fs drv.Device → ℕ → List ℕ → Fs drv.Device
  under_cursor s b bytes = loaded s (lba_of s.volume.context b (s.file.cursor % 1024)) bytes

  selects :
      (s s1 : Fs drv.Device) (b p : ℕ)
      → ext2_block_size s.volume.context ≡ 1024
      → b ≢ 0
      → ext2_block_from_offset s.file.cursor s ≡ some (b, s)
      → ext2_block_from_offset (u64 ((s.file.cursor / 1024 + 2 ^ 64 - 1) * 1024)) s ≡ some (p, s)
      → ext2_load_buffer b (s.file.cursor % 1024) s ≡ some (ok tt, s1)
      → ext2_select_buffer s ≡ some (ok tt, s1)
  unfolding ext2_select_buffer ◌>>=◌
  selects s s1 b p size allocated here earlier load = ground (arith, size, here, earlier, load)

  -- Which block is selected depends on the cursor, the size of the blocks and the pointers.
  pub selected_by_load :
      (s s1 : Fs drv.Device) (b : ℕ)
      → s.volume.context.superblock.s_log_block_size ≡ 0
      → length s.file.inode.i_block ≡ 15
      → s.file.cursor < 12 * 1024
      → get_elem? s.file.inode.i_block (s.file.cursor / 1024) ≡ some b
      → b ≢ 0
      → ext2_load_buffer b (s.file.cursor % 1024) s ≡ some (ok tt, s1)
      → ext2_select_buffer s ≡ some (ok tt, s1)
  selected_by_load s s1 b small_blocks pointers below pointer allocated load =
      let size = block_size_1024 s small_blocks in
      let here : ext2_block_from_offset s.file.cursor s ≡ some (b, s) =
        from_offset s s.file.cursor small_blocks
        ∙ direct_at s (u32 (s.file.cursor / 1024)) (s.file.cursor / 1024) b (omega (arith, below))
            (omega (arith, below)) pointer in
      let (p, before_here) = previous s (s.file.cursor / 1024) pointers (omega (arith, below)) in
      let earlier =
        from_offset s (u64 ((s.file.cursor / 1024 + 2 ^ 64 - 1) * 1024)) small_blocks
        ∙ before_here in
      selects s s1 b p size allocated here earlier load

  pub selected :
      (s : Fs drv.Device) (b : ℕ) (bytes : List ℕ)
      → IsAtDirect s b bytes
      → ext2_select_buffer s ≡ some (ok tt, under_cursor s b bytes)
  selected s b bytes is =
      selected_by_load s (under_cursor s b bytes) b is.small_blocks is.pointers is.below is.pointer
        is.allocated (load-clean s b (s.file.cursor % 1024) bytes is.clean is.read)

  -- Through a modified buffer, which is written back first.
  pub selected_dirty :
      (s : Fs drv.Device) (d : drv.Device) (b : ℕ) (bytes : List ℕ)
      → s.file.buffer.dirty ≢ 0
      → ext2_store_buffer s ≡ some (ok tt, stored s d)
      → IsAtDirect (stored s d) b bytes
      → ext2_select_buffer s ≡ some (ok tt, under_cursor (stored s d) b bytes)
  selected_dirty s d b bytes dirty store is =
      selected_by_load s (under_cursor (stored s d) b bytes) b is.small_blocks is.pointers is.below
        is.pointer is.allocated
        (load_through s d b (s.file.cursor % 1024) bytes dirty store is.read)
