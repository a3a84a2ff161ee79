-- ===== src/Ext2/BlockMap.antt =====
-- From a byte offset of a file to its block: `ext2_block_from_offset` and `ext2_select_buffer` of
-- src/embext.c.
pub mod Tree
use embext.Base.{
  ℕ, ◌+◌, ◌-◌, ◌*◌, ◌/◌, ◌%◌, ◌^◌, not, bit_and, ltb, ◌==◌, if◌then◌else◌, get_elem?, set,
}
use embext.Bytes.{le_decode}
use embext.Driver.{Reply, ok, failed, BlockDriver}
use embext.Ext2.Monad.{M, pure, ◌>>=◌, ◌>>◌, get, defined, set_file}
use embext.Ext2.State.{Context, Fs}
use embext.Ext2.State.{ext2_block_size, u32, u64, ext2_flag_write}
use embext.Ext2.Buffer.{ext2_load_buffer, ext2_read_buffer}
use embext.Ext2.Allocate.{ext2_allocate_block}

-- `(uint32_t)-1`, the answer for an offset past the largest file.
abbrev pub no_block : ℕ
no_block = 2 ^ 32 - 1

-- The block numbers that a block of pointers holds.
abbrev pub indirect_entries : Context → ℕ
indirect_entries context = ext2_block_size context / 4

module _ ⦃drv : BlockDriver⦄ where
  -- Entry `index` of the pointers in `block`: loaded into the buffer of the file, and read there.
  unfoldable pub read_pointer : ℕ → ℕ → M (Fs drv.Device) ℕ
  read_pointer block index = do
    _ ← ext2_load_buffer block (index * 4)
    bytes ← ext2_read_buffer (index * 4) 4
    pure (le_decode bytes)

  -- `i_block[i]`
  abbrev pub inode_pointer : ℕ → M (Fs drv.Device) ℕ
  inode_pointer i = do s ← get; defined (get_elem? s.file.inode.i_block i)

  -- `n` is `indirect_entries`; its square and its cube are `uint32_t` products.
  unfoldable pub block_of_index : ℕ → ℕ → M (Fs drv.Device) ℕ
  block_of_index n block_index =
      if ltb block_index 12
      then inode_pointer block_index
      else let single = block_index - 12 in
        if ltb single n
        then (do block ← inode_pointer 12; read_pointer block single)
        else let double = single - n in
          if ltb double (u32 (n * n))
          then (do
            block ← inode_pointer 13
            block ← read_pointer block (double / n)
            read_pointer block (double % n))
          else let triple = double - u32 (n * n) in
            if ltb triple (u32 (n * n * n))
            then (do
              block ← inode_pointer 14
              block ← read_pointer block (triple / u32 (n * n))
              block ← read_pointer block (triple / n % n)
              read_pointer block (triple % n))
            else pure no_block

  -- The offset is a `uint64_t`; the index of its block is cut to 32 bits.
  unfoldable pub ext2_block_from_offset : ℕ → M (Fs drv.Device) ℕ
  ext2_block_from_offset offset = do
    s ← get
    block_of_index (indirect_entries s.volume.context)
        (u32 (offset / ext2_block_size s.volume.context))

  unfoldable pub ext2_select_buffer : M (Fs drv.Device) (Reply (Unit {0}))
  ext2_select_buffer = do
    s ← get
    let size = ext2_block_size s.volume.context
    block ← ext2_block_from_offset s.file.cursor
    previous_block ← ext2_block_from_offset (u64 ((s.file.cursor / size + 2 ^ 64 - 1) * size))
    if not (block == 0)
        then (do _ ← ext2_load_buffer block (s.file.cursor % size); pure (ok tt))
        else if bit_and s.file.flags ext2_flag_write == 0
        then pure failed
        else do
          new_block ← ext2_allocate_block previous_block
          if new_block == 0 then pure failed else do
            set_file (λ fe. record fe {
              inode = record fe.inode { i_block = set fe.inode.i_block 0 new_block };
            })
            _ ← ext2_load_buffer new_block (s.file.cursor % size)
            pure (ok tt)
