-- ===== src/Ext2/Allocate/Numbering.antt =====
-- The block number that `ext2_allocate_block` makes of a bit, and the bit that
-- `ext2_change_allocated` makes of a block number.
