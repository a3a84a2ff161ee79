-- ===== src/Lib.antt =====
-- embext: an EXT2 driver for embedded systems, over a block driver of 512-byte sectors.
--
-- The parts of the program and how they interact. src/block.h is the interface of a block driver:
-- read, write, size and a read-only flag. src/block_drivers/block_pc.c implements it over an image
-- in memory, src/block_drivers/block_sd.c over an SD card. src/partition.c reads the partition table of a master boot record. src/embext.c mounts
-- a volume (`struct ext2context`) and works on open files (`struct file_ent`), each of which has
-- its own buffer of one sector; the context has another buffer, `sysbuf`, for the superblock, the
-- group descriptors and the bitmaps.
--
-- Which file models which part:
--   * Base, Bytes, Fault: shared helpers on lists, little-endian bytes, the C type `int`, and
--     undefined behaviour as `none`.
--   * Driver: src/block.h as a record of operations and laws, which every other part is generic in.
--   * BlockPc: src/block_drivers/block_pc.c, the globals as a record, `block_read` and
--     `block_write` with their arithmetic in 32 bits; BlockPc.Laws fills the interface for images
--     of whole blocks below 2 GB.
--   * BlockSd: src/block_drivers/block_sd.c and block_sd.h, the global `card` and the bus as the
--     state, the calls of libopencm3 as the operations of a board; BlockSd.Reset has
--     `sd_card_reset` and `block_init`, BlockSd.Exchange the conversations on the bus.
--   * Partition: src/partition.c and src/partition.h, `read_partition_table` as a scan of the four
--     entries.
--   * Ext2.Layout: the three packed structs of src/embext.h, to and from their bytes.
--   * Ext2.State: `struct ext2context`, `struct file_ent` and `struct buffer_object`; `Volume` is a
--     device with its context, `Fs` a volume with an open file, the caller's `rerrno` and the time.
--   * Ext2.Monad: state passing with undefined behaviour; a C function that changes the context or
--     the file is a function into `M`.
--   * Ext2.Buffer, Ext2.Sector: `ext2_store_buffer`, `ext2_load_buffer`, `ext2_read_buffer`,
--     `ext2_write_buffer`, `ext2_buffer_space` of src/embext.c, and the calls of the driver.
--   * Ext2.Group: `ext2_get_bg_descriptor`, `ext2_write_bg_descriptor`, `ext2_flush_superblock`.
--   * Ext2.Mount: `ext2_mount`, `ext2_umount`, `is_power`.
--   * Ext2.Bitmap, Ext2.Allocate: `ext2_change_allocated`, `ext2_allocate_block`,
--     `ext2_allocate_inode`.
--   * Ext2.BlockMap: `ext2_block_from_offset`, `ext2_select_buffer`.
--   * Ext2.Seek, Ext2.Transfer, Ext2.Close: `ext2_lseek`, `ext2_fstat`, `ext2_isatty`, `ext2_read`,
--     `ext2_write`, `ext2_update_atime`, `ext2_update_mtime`, `ext2_flush_inode`, `ext2_close`.
--   * Ext2.Open, Ext2.Truncate: `ext2_open_inode`, `ext2_truncate_file`.
--   * Ext2.Directory, Ext2.Lookup: `ext2_readdir` and `ext2_lookup_path`; the static `struct dirent`
--     of the first is passed from call to call.
--   * Ext2.OpenFile, Ext2.Append, Ext2.Create: `ext2_open` but for the creation of a file,
--     `ext2_append_to_directory` of src/embext_directory.c, which calls it with a file of its own,
--     and `ext2_open` as a whole, which calls both.
--   * Ext2.Reading: sessions of the calls that read, as a step relation on states.
--   * Ext2.Sample, and the modules named Tests: a small volume, and the theorems there.
--
-- Numbers are native naturals, and a `uint16_t`, `uint32_t` or `uint64_t` wraps where the source
-- computes in it. An access past an array, a division by zero, a shift by 32 or more, or the use of
-- a variable without a value ends in `none`.
--
-- Bounds and fuel: a loop with a counter is recursion on the rounds left. `is_power` has the fuel
-- `x + 1`, enough because `x` falls in each round unless it is 0 or the divisor is 1, when the loop
-- of the source does not end; the reads and writes have fuel for one round a byte, and a round that
-- copies nothing repeats forever in the source. The search of a directory has fuel for one entry a
-- byte of it, enough for entries of at least 8 bytes; the search for the last entry of a block has
-- one round more than the block has bytes. An entry of length 0 is read forever by the source.
--
-- The waits of the SD driver that have no limit in the source have their fuel as an argument, which
-- the theorems compare with what the card sends before it is done.
--
-- Not modelled: the messages and debugging prints; memory allocation, which is taken to succeed but
-- in `block_init` and for the file of `ext2_open`; the set-up of clocks and pins in `block_init` of
-- the SD driver, which is one operation of the board; `ext2_delete_from_directory`, whose body is
-- empty; the programs under test/.
pub mod Base
pub mod Bytes
pub mod Fault
pub mod Partition
pub mod Driver
pub mod BlockPc
pub mod Ext2
pub mod BlockSd
