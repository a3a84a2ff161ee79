-- ===== src/Ext2/Layout.antt =====
-- The on-disk structs of src/embext.h, packed and little-endian. A byte or word array that the
-- driver only copies (`s_uuid`, `bg_reserved`, `i_osd2`) is one number of its width.
pub mod SuperblockStruct
pub mod DescriptorStruct
pub mod InodeStruct
pub mod RoundTrip
unfoldable pub use SuperblockStruct.*
unfoldable pub use DescriptorStruct.*
unfoldable pub use InodeStruct.*
