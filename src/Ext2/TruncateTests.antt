-- ===== src/Ext2/TruncateTests.antt =====
-- The theorems on allocation numbers and on truncating, at a small volume.
