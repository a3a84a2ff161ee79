-- ===== src/Ext2/BitmapTests.antt =====
-- The theorems on the bitmap of a device, at a small volume.
