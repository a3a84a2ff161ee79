-- ===== src/Ext2/Reading.antt =====
-- Calls of src/embext.c on a file that is open for reading: a session of them.
pub mod Quiet
pub mod Calls
pub mod Session
