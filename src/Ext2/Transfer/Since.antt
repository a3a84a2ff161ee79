-- ===== src/Ext2/Transfer/Since.antt =====
-- What holds of a file open for writing and of its volume from write to write, when they all lie
-- in one sector below the first twelve blocks.
use embext.Base.{ℕ, ◌*◌, ◌/◌, ◌%◌, ◌<◌, ◌≡◌, ◌≢◌, arith, some}
use embext.Base.{Bool, true, ◌||◌, ◌==◌, List, length}
use embext.Base.{get_elem?, pos, to_int, bit_and, bit_or}
use embext.Driver.{BlockDriver}
use embext.Ext2.Monad.{◌>>=◌}
use embext.Ext2.State.{Fs, embext_magic, ext2_flag_write, ext2_flag_append}
use embext.Ext2.Buffer.{lba_of}
use embext.Ext2.Buffer.Loaded.{load_sector}
use embext.Ext2.Seek.{file, seek_set, ext2_lseek}
use embext.Ext2.Seek.Target.{moved}

-- The flags of a file open for writing, or for reading and writing, with and without the mark that
-- the inode has changed.
abbrev pub is_writer : ℕ → Bool
is_writer flags = (flags == 4) || (flags == 36) || (flags == 6) || (flags == 38)

pub writes : (flags : ℕ) → is_writer flags ≡ true → bit_and flags ext2_flag_write ≢ 0
writes flags e = ground (arith, e)

pub no_append : (flags : ℕ) → is_writer flags ≡ true → bit_and flags ext2_flag_append ≡ 0
no_append flags e = ground (arith, e)

pub marked_writer : (flags : ℕ) → is_writer flags ≡ true → is_writer (bit_or flags 32) ≡ true
marked_writer flags e = ground (arith, e)

module _ {Device : Type 0} where
  pub lseek_to :
      (s : Fs Device) (n : ℕ)
      → s.file.magic ≡ embext_magic
      → ext2_lseek file (pos n) seek_set s ≡ some (to_int n, moved n s)
  unfolding ext2_lseek ◌>>=◌
  lseek_to s n opened = ground (arith, opened)

module _ ⦃drv : BlockDriver⦄ where
  -- Sector `i` of the file, in its block `b`, one of the first twelve, which is allocated.
  pub record IsSector (s : Fs drv.Device) (i b : ℕ) : Type 0 where
    pub small_blocks : s.volume.context.superblock.s_log_block_size ≡ 0
    pub pointers : length s.file.inode.i_block ≡ 15
    pub below : i < 24
    pub pointer : get_elem? s.file.inode.i_block (i / 2) ≡ some b
    pub allocated : b ≢ 0
    pub inside : load_sector s b (i % 2 * 512) < drv.volume_size s.volume.device

  -- What writes from `start` on leave as it is: the context, the pointers and the size of the
  -- file, and sector `c` of the device; the file stays open for writing.
  pub record IsSince (start : Fs drv.Device) (c : ℕ) (s : Fs drv.Device) : Type 0 where
    pub context : s.volume.context ≡ start.volume.context
    pub blocks : s.file.inode.i_block ≡ start.file.inode.i_block
    pub size : s.file.inode.i_size ≡ start.file.inode.i_size
    pub volume : drv.volume_size s.volume.device ≡ drv.volume_size start.volume.device
    pub other : drv.block_read c s.volume.device ≡ drv.block_read c start.volume.device
    pub opened : s.file.magic ≡ embext_magic
    pub writer : is_writer s.file.flags ≡ true
    pub ready : drv.IsReady s.volume.device

  -- The buffer is modified: it holds `bytes` for sector `i` of the file.
  pub record IsEdited (start : Fs drv.Device) (i b c : ℕ) (bytes : List ℕ) (s : Fs drv.Device)
      : Type 0 where
    pub since : IsSince start c s
    pub dirty : s.file.buffer.dirty ≢ 0
    pub lba : s.file.buffer.lba_block ≡ lba_of start.volume.context b (i % 2 * 512)
    pub holds : s.file.buffer.buffer ≡ bytes
    pub sized : length bytes ≡ 512

  pub moved-IsSince :
      (start s : Fs drv.Device) (c n : ℕ) → IsSince start c s → IsSince start c (moved n s)
  moved-IsSince start s c n h = record {
    context = h.context;
    blocks = h.blocks;
    size = h.size;
    volume = h.volume;
    other = h.other;
    opened = h.opened;
    writer = h.writer;
    ready = h.ready;
  }

  pub moved-IsEdited :
      (start s : Fs drv.Device) (i b c n : ℕ) (bytes : List ℕ)
      → IsEdited start i b c bytes s
      → IsEdited start i b c bytes (moved n s)
  moved-IsEdited start s i b c n bytes h = record {
    since = moved-IsSince start s c n h.since;
    dirty = h.dirty;
    lba = h.lba;
    holds = h.holds;
    sized = h.sized;
  }
