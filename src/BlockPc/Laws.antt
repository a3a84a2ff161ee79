-- ===== src/BlockPc/Laws.antt =====
-- The image driver of src/block_drivers/block_pc.c and the interface of a driver.
use native.Mathlib.Decide.{dec_lt}
use embext.Base.{ℕ, ◌+◌, ◌*◌, ◌%◌, ◌^◌, ◌≤◌, ◌<◌, ◌≡◌, ◌≢◌, refl, sym, ◌∙◌, false}
use embext.Base.{arith, some, List, length, take, drop, slice, overlay}
use embext.Base.{
  slice-overlay_self, slice-overlay_before, slice-overlay_behind, splice_inside, slice_inside,
}
use embext.Base.{length-overlay, length-take, length-drop}
use embext.Driver.{ok, Wrote, BlockDriver}
use embext.Fault.{◌>>=◌}
use embext.BlockPc.{Pc, past_end, byte_offset, block_read, block_write}
use embext.BlockPc.{block_get_volume_size, block_get_device_read_only}

pub record IsWhole (d : Pc) : Type 0 where
  pub sized : length d.blocks ≡ d.block_fs_size
  pub whole : d.block_fs_size % 512 ≡ 0
  pub small : d.block_fs_size < 2 ^ 31

module _ (d : Pc) (block : ℕ) (is : IsWhole d) (inside : block < block_get_volume_size d) where
  not_past_end : past_end block d.block_fs_size ≡ false
  unfolding past_end block_get_volume_size
  not_past_end = ground arith

  pub offset_exact : byte_offset block ≡ block * 512
  unfolding block_get_volume_size byte_offset
  offset_exact = omega arith

  pub offset_inside : byte_offset block + 512 ≤ length d.blocks
  unfolding block_get_volume_size byte_offset
  offset_inside = omega arith

  read_slice : block_read block d ≡ (slice d.blocks (block * 512) 512 >>= λ bytes. some (ok bytes))
  unfolding block_read
  read_slice = rw (not_past_end, offset_exact)

  block_write_inside :
      (bytes : List ℕ)
      → length bytes ≡ 512
      → block_write block bytes d
        ≡ some (ok (record d { blocks = overlay d.blocks (byte_offset block) bytes }))
  unfolding block_write
  block_write_inside bytes sized =
      rw (not_past_end, splice_inside d.blocks (byte_offset block) bytes (rw sized offset_inside))

  -- A read at an offset that does not meet the block written.
  other_block :
      (other : ℕ) (bytes : List ℕ)
      → length bytes ≡ 512
      → other < block_get_volume_size d
      → other ≢ block
      → slice (overlay d.blocks (block * 512) bytes) (other * 512) 512
        ≡ slice d.blocks (other * 512) 512
  other_block other bytes sized other_inside ne = elim (dec_lt other block) [
    | yes below ↦
        slice-overlay_before d.blocks (block * 512) (other * 512) 512 bytes (omega arith)
          (rw sized (rw offset_exact at offset_inside))
    | no above ↦
        slice-overlay_behind d.blocks (block * 512) (other * 512) 512 bytes (omega arith)
          (rw sized (rw offset_exact at offset_inside))
  ]

-- A block below the volume size is read.
pub block_read-block :
    (d : Pc) (block : ℕ)
    → IsWhole d
    → block < block_get_volume_size d
    → (bytes : List ℕ) × (block_read block d ≡ some (ok bytes)) × (length bytes ≡ 512)
block_read-block d block is inside = (
  take 512 (drop (byte_offset block) d.blocks),
  rw (
    read_slice d block is inside,
    ← offset_exact d block is inside,
    slice_inside d.blocks (byte_offset block) 512 (offset_inside d block is inside),
  ),
  omega (
    arith,
    length-take 512 (drop (byte_offset block) d.blocks),
    length-drop (byte_offset block) d.blocks,
    offset_inside d block is inside,
  ),
)

-- On an image of whole blocks below 2 GB, writing 512 bytes to a block below the volume size
-- succeeds. The block then reads back as those bytes, every other block of the volume reads as
-- before, and size and write protection are unchanged.
pub block_write-Wrote :
    (d : Pc) (block : ℕ) (bytes : List ℕ)
    → IsWhole d
    → block < block_get_volume_size d
    → length bytes ≡ 512
    → (d' : Pc) × (block_write block bytes d ≡ some (ok d'))
      × Wrote IsWhole block_get_volume_size block_get_device_read_only block_read block bytes d d'
block_write-Wrote d block bytes is inside sized = (
  written_image,
  block_write_inside d block is inside bytes sized,
  record {
    ready = ready;
    same_size = unfold block_get_volume_size in refl;
    same_read_only = unfold block_get_device_read_only in refl;
    written = rw (
      read_slice written_image block ready here,
      ← offset_exact d block is inside,
      slice-overlay_self d.blocks (byte_offset block) 512 bytes (sym sized)
          (rw sized (offset_inside d block is inside)),
    );
    others = λ c c_inside ne. rw (
      read_slice written_image c ready (unfold block_get_volume_size in c_inside),
      read_slice d c is c_inside,
      offset_exact d block is inside,
      other_block d block is inside c bytes sized c_inside ne,
    );
  },
)
  where
    written_image : Pc
    written_image = record d { blocks = overlay d.blocks (byte_offset block) bytes }

    ready : IsWhole written_image
    ready = record {
      sized =
          length-overlay d.blocks (byte_offset block) bytes
            (rw sized (offset_inside d block is inside))
          ∙ is.sized;
      whole = is.whole;
      small = is.small;
    }

    here : block < block_get_volume_size written_image
    here = unfold block_get_volume_size in inside

-- The driver as an instance of the interface.
instance abbrev pub block_pc : BlockDriver
block_pc = record {
  Device = Pc;
  block_read = block_read;
  block_write = block_write;
  volume_size = block_get_volume_size;
  read_only = block_get_device_read_only;
  IsReady = IsWhole;
  read_inside = block_read-block;
  write_inside = block_write-Wrote;
}
