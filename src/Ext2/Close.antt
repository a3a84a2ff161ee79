-- ===== src/Ext2/Close.antt =====
-- `ext2_flush_inode` and `ext2_close` of src/embext.c; `free` and the debugging print are left out.
pub mod Closed
pub mod Flush
pub mod Inode
pub mod Persisted
use embext.Base.{◌+◌, ◌-◌, ◌*◌, ◌%◌, ◌^◌, bit_and, ◌==◌, if◌then◌else◌, ℤ, pos, minus_one}
use embext.Driver.{Reply, ok, BlockDriver}
use embext.Fault.{checked_div, checked_mod}
use embext.Ext2.Layout.{inode_bytes}
use embext.Ext2.Monad.{
  M, pure, ◌>>=◌, ◌>>◌, get, defined, written, on_volume, set_file, set_errno, on_reply,
}
use embext.Ext2.State.{FileEnt, Fs}
use embext.Ext2.State.{ext2_block_size, ext2_flag_fs_dirty, u32, ebadf}
use embext.Ext2.Group.{ext2_get_bg_descriptor}
use embext.Ext2.Buffer.{ext2_store_buffer, ext2_load_buffer, ext2_write_buffer}
use embext.Ext2.Seek.{Pointer, is_open}

-- `fe->flags &= ~EXT2_FLAG_FS_DIRTY`
abbrev pub clear_fs_dirty : FileEnt → FileEnt
clear_fs_dirty fe = record fe { flags = bit_and fe.flags (2 ^ 32 - 1 - ext2_flag_fs_dirty) }

-- `*rerrno = fe->rerrno; return -1;`
abbrev pub store_failed : {Device : Type 0} → FileEnt → M (Fs Device) ℤ
store_failed fe = do set_errno fe.rerrno; pure minus_one

module _ ⦃drv : BlockDriver⦄ where
  -- The source gives its inode writes no result but 0.
  unfoldable pub ext2_flush_inode : M (Fs drv.Device) (Reply (Unit {0}))
  ext2_flush_inode = do
    s ← get
    let sb = s.volume.context.superblock
    let index = u32 (s.file.inode_number + 2 ^ 32 - 1)
    block_group ← defined (checked_div index sb.s_inodes_per_group)
    inode_index ← defined (checked_mod index sb.s_inodes_per_group)
    if bit_and s.file.flags ext2_flag_fs_dirty == 0 then pure (ok tt) else do
      reply ← on_volume (ext2_get_bg_descriptor block_group)
      bg ← written reply
      let block_size = ext2_block_size s.volume.context
      per_block ← defined (checked_div block_size sb.s_inode_size)
      block_in_table ← defined (checked_div inode_index per_block)
      _ ←
          ext2_load_buffer (u32 (bg.bg_inode_table + block_in_table))
            (u32 (inode_index * sb.s_inode_size) % block_size)
      ext2_write_buffer (inode_bytes s.file.inode) (u32 (inode_index * sb.s_inode_size))
      _ ← ext2_store_buffer
      set_file clear_fs_dirty
      pure (ok tt)

  -- Behind the flush of the buffer. The file is closed by its magic number.
  unfoldable pub close_flushed : M (Fs drv.Device) ℤ
  close_flushed = do
    s ← get
    flushed ←
        (if bit_and s.file.flags ext2_flag_fs_dirty == 0 then pure (ok tt) else ext2_flush_inode)
    s ← get
    on_reply flushed (store_failed s.file)
        λ _. do set_file (λ fe. record fe { magic = 0 }); pure (pos 0)

  unfoldable pub ext2_close : Pointer → M (Fs drv.Device) ℤ
  unfolding close_flushed
  ext2_close vfe = do
    s ← get
    if is_open vfe s.file
        then (do
          stored ← (if s.file.buffer.dirty == 0 then pure (ok tt) else ext2_store_buffer)
          s ← get
          on_reply stored (store_failed s.file) λ _. close_flushed)
        else (do set_errno ebadf; pure minus_one)
