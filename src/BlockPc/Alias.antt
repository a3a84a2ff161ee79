-- ===== src/BlockPc/Alias.antt =====
-- Block numbers outside the image: which are refused, and which wrap round to another block.
use embext.Base.{if◌then◌else◌, leb, leb→le, Bool-cases, inl, inr, refl}
use embext.Base.{ℕ, ◌+◌, ◌*◌, ◌/◌, ◌%◌, ◌^◌, ◌≤◌, ◌<◌, ◌≡◌, true, false, arith, none, some, length}
use embext.Base.{lt→leb, slice}
use embext.Driver.{failed}
use embext.BlockPc.{Pc, past_end, byte_offset, block_read, block_get_volume_size}
use embext.BlockPc.Laws.{IsWhole}

-- On an image of whole blocks below 2 GB a read depends on the block number modulo 2^23 only: it
-- fails if that remainder is outside the volume, and otherwise is the read of that remainder.
pub block_read-mod :
    (d : Pc) (block : ℕ)
    → IsWhole d
    → block_read block d ≡ (
        if leb (block_get_volume_size d) (block % 2 ^ 23)
        then some failed
        else block_read (block % 2 ^ 23) d)
unfolding block_read
block_read-mod d block is = elim (Bool-cases (leb (block_get_volume_size d) (block % 2 ^ 23))) [
  | inl outside ↦ rw (outside, refused (leb→le _ _ outside)) refl
  | inr inside ↦ rw (inside, same_test, same_offset) refl
]
  where
    refused : block_get_volume_size d ≤ block % 2 ^ 23 → past_end block d.block_fs_size ≡ true
    refused outside = unfold past_end block_get_volume_size in ground arith

    same_test : past_end block d.block_fs_size ≡ past_end (block % 2 ^ 23) d.block_fs_size
    same_test = unfold past_end in ground arith

    same_offset : byte_offset block ≡ byte_offset (block % 2 ^ 23)
    same_offset = unfold byte_offset in omega arith

-- An image that lacks one byte of a whole number of blocks: the bounds test lets its last, partial
-- block through, and the read leaves the image.
pub block_read-partial :
    (d : Pc)
    → length d.blocks ≡ d.block_fs_size
    → d.block_fs_size % 512 ≡ 511
    → d.block_fs_size < 2 ^ 31
    → block_read (d.block_fs_size / 512) d ≡ none
unfolding block_read
block_read-partial d sized partial small = rw (passes, leaves)
  where
    passes : past_end (d.block_fs_size / 512) d.block_fs_size ≡ false
    passes = unfold past_end in ground arith

    leaves : slice d.blocks (byte_offset (d.block_fs_size / 512)) 512 ≡ none
    leaves =
        unfold slice byte_offset in
        rw (lt→leb (d.block_fs_size / 512 * 512 % 2 ^ 32 + 512) (length d.blocks) (omega arith))
