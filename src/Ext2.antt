-- ===== src/Ext2.antt =====
-- src/embext.c, src/embext.h and src/embext_directory.c: the EXT2 driver.
pub mod Layout
pub mod State
pub mod Monad
pub mod Sector
pub mod Buffer
pub mod Group
pub mod Mount
pub mod Bitmap
pub mod Allocate
pub mod BlockMap
pub mod Seek
pub mod Transfer
pub mod Close
pub mod Open
pub mod Directory
pub mod Lookup
pub mod OpenFile
pub mod Append
pub mod Create
pub mod Truncate
pub mod Reading
pub mod Sample
mod Tests
mod FileTests
mod TruncateTests
mod BitmapTests
mod InodeTests
mod MountTests
mod TreeTests
mod AppendTests
