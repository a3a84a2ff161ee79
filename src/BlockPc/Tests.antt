-- ===== src/BlockPc/Tests.antt =====
-- Runs, and the theorems at a small image.
use embext.Base.{if◌then◌else◌, leb}
use embext.Base.{◌+◌, ◌%◌, ◌^◌, ◌≡◌, refl, arith, some, true, replicate}
use embext.Base.{slice}
use embext.Driver.{ok, failed, Wrote}
use embext.BlockPc.{Pc, past_end, byte_offset, block_read, block_write, block_init}
use embext.BlockPc.{block_get_volume_size, block_get_device_read_only}
use embext.BlockPc.Laws.{IsWhole, block_write-Wrote}
use embext.BlockPc.Alias.{block_read-mod}

-- An image of two blocks.
abbrev two_blocks : Pc
two_blocks = record { blocks = replicate 1024 7; block_fs_size = 1024; block_ro = 0 }

abbrev cut_short : Pc
cut_short = record { blocks = replicate 1023 7; block_fs_size = 1023; block_ro = 0 }

two_blocks-IsWhole : IsWhole two_blocks
two_blocks-IsWhole = record { sized = refl; whole = refl; small = omega arith }

block_init-two_blocks :
    block_init (record { bytes = some (replicate 1024 7); memory = true; readable = true }) 0
    ≡ ok two_blocks
unfolding block_init
block_init-two_blocks = refl

block_read_runs :
    (block_read 1 two_blocks ≡ some (ok (replicate 512 7)))
    × (block_read 2 two_blocks ≡ some failed)
    × (block_read (2 ^ 23 + 1) two_blocks ≡ some (ok (replicate 512 7)))
unfolding block_read past_end byte_offset slice
block_read_runs = (refl, refl, refl)

block_write-Wrote_example :
    (d' : Pc) × (block_write 1 (replicate 512 9) two_blocks ≡ some (ok d'))
    × Wrote IsWhole block_get_volume_size block_get_device_read_only block_read 1
        (replicate 512 9)
        two_blocks
        d'
block_write-Wrote_example =
    block_write-Wrote two_blocks 1 (replicate 512 9) two_blocks-IsWhole
      (unfold block_get_volume_size in omega arith) refl

wrapped_read : block_read (2 ^ 23 + 1) two_blocks ≡ (
    if leb (block_get_volume_size two_blocks) ((2 ^ 23 + 1) % 2 ^ 23)
    then some failed
    else block_read ((2 ^ 23 + 1) % 2 ^ 23) two_blocks)
wrapped_read = block_read-mod two_blocks (2 ^ 23 + 1) two_blocks-IsWhole
