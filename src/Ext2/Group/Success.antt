-- ===== src/Ext2/Group/Success.antt =====
-- `ext2_write_bg_descriptor` on a mounted volume.
