-- ===== src/Ext2/Truncate/One.antt =====
-- `ext2_truncate_file` on a file of one block.
use embext.Base.{Bool, not, replicate}
use embext.Base.{bit_and, ◌==◌}
use embext.Driver.{BlockDriver}
use embext.Ext2.State.{Fs, FileEnt, ext2_s_ifdir}

-- The file behind the truncation.
abbrev pub emptied : FileEnt → FileEnt
emptied fe = record fe {
  inode = record fe.inode { i_size = 0; i_blocks = 0; i_block = replicate 15 0 };
}

abbrev no_pointers : FileEnt → FileEnt
no_pointers fe = record fe { inode = record fe.inode { i_block = replicate 15 0 } }

module _ ⦃drv : BlockDriver⦄ where
  abbrev is_dir : Fs drv.Device → Bool
  is_dir s = not (bit_and s.file.inode.i_mode ext2_s_ifdir == 0)
