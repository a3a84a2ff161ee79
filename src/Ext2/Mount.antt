-- ===== src/Ext2/Mount.antt =====
-- `is_power`, `ext2_mount` and `ext2_umount` of src/embext.c. `malloc` is taken to succeed, and the
-- time comes in as an argument; the messages printed are left out.
pub mod Copies
pub mod Cycle
use embext.Base.{ℕ, zero, suc, ◌+◌, ◌*◌, ◌/◌, ◌^◌, Bool, true, false, ◌&&◌, not}
use embext.Base.{Option, none, some, List, [], ◌∷◌, bit_and, ltb, ◌==◌, if◌then◌else◌, slice}
use embext.Driver.{Reply, ok, failed, BlockDriver}
use embext.Fault.{◌>>=◌, checked_div, checked_mod}
use embext.Ext2.Layout.{Superblock, read_superblock}
use embext.Ext2.State.{Context, Volume, u16, u32, ext2_super_magic, ext2_valid_fs, ext2_error_fs}
use embext.Ext2.Group.{ext2_flush_superblock}

-- The loop of `is_power` with fuel: the last `x`. A division by zero is undefined, and so is a
-- loop that never ends.
unfoldable pub is_power_loop : ℕ → ℕ → ℕ → Option ℕ
is_power_loop zero x ofy = none
is_power_loop (suc fuel) x ofy =
    let rest = is_power_loop fuel (x / ofy) ofy in
    do r ← checked_mod x ofy; if r == 0 then rest else some x

unfoldable pub is_power : ℕ → ℕ → Option Bool
is_power x ofy = do last ← is_power_loop (x + 1) x ofy; some (last == 1)

-- `||` of C on a right operand that may be undefined.
abbrev pub or_else : Option Bool → Option Bool → Option Bool
or_else none b = none
or_else (some true) b = some true
or_else (some false) b = b

-- The test for a group that holds a copy of the superblock on a sparse filesystem.
unfoldable pub has_copy : ℕ → Option Bool
has_copy i =
    if i == 0
    then some true
    else if i == 1
    then some true
    else or_else (is_power 3 i) (or_else (is_power 5 i) (is_power 7 i))

-- The first loop: the number of copies in the groups from `i` on, with the rounds left.
unfoldable pub count_copies : ℕ → ℕ → ℕ → Option ℕ
count_copies zero i num_superblocks = some num_superblocks
count_copies (suc left) i num_superblocks = do
  copy ← has_copy i
  count_copies left (i + 1) (if copy then num_superblocks + 1 else num_superblocks)

abbrev pub copy_block : Superblock → ℕ → ℕ → ℕ
copy_block sb superblock_block i = u32 (i * sb.s_blocks_per_group + superblock_block)

-- The second loop: what it stores into `superblock_blocks`.
unfoldable pub sparse_blocks : Superblock → ℕ → ℕ → ℕ → Option (List ℕ)
sparse_blocks sb superblock_block zero i = some []
sparse_blocks sb superblock_block (suc left) i = do
  copy ← has_copy i
  rest ← sparse_blocks sb superblock_block left (i + 1)
  some (if copy then copy_block sb superblock_block i ∷ rest else rest)

-- The loop of a filesystem that is not sparse.
unfoldable pub dense_blocks : Superblock → ℕ → ℕ → ℕ → List ℕ
dense_blocks sb superblock_block zero i = []
dense_blocks sb superblock_block (suc left) i =
    copy_block sb superblock_block i ∷ dense_blocks sb superblock_block left (i + 1)

-- `a << b` of `uint32_t` operands.
abbrev pub checked_shl : ℕ → ℕ → Option ℕ
checked_shl a b = if ltb b 32 then some (u32 (a * 2 ^ b)) else none

-- The number and the blocks of the copies.
unfoldable pub copies : Superblock → ℕ → Bool → ℕ → Option (ℕ × List ℕ)
copies sb superblock_block sparse num_blockgroups =
    if sparse
    then (do
      num_superblocks ← count_copies num_blockgroups 0 0
      blocks ← sparse_blocks sb superblock_block num_blockgroups 0
      some (num_superblocks, blocks))
    else some (num_blockgroups, dense_blocks sb superblock_block num_blockgroups 0)

-- The state of a volume in use, in the superblock.
abbrev pub mark_mounted : ℕ → Superblock → Superblock
mark_mounted now sb = record sb {
  s_mtime = u32 now;
  s_mnt_count = u16 (sb.s_mnt_count + 1);
  s_state = ext2_error_fs;
}

module _ ⦃drv : BlockDriver⦄ where
  -- The context that the checks and loops build, before the superblock is marked.
  unfoldable pub build_context : ℕ → Superblock → List ℕ → drv.Device → Option Context
  build_context part_start sb sysbuf d = do
    let superblock_block = if sb.s_log_block_size == 0 then 1 else 0
    let sparse = (sb.s_rev_level == 1) && not (bit_and sb.s_feature_ro_compat 1 == 0)
    whole ← checked_div sb.s_blocks_count sb.s_blocks_per_group
    part ← checked_mod sb.s_blocks_count sb.s_blocks_per_group
    let num_blockgroups = if part == 0 then whole else whole + 1
    (num_superblocks, blocks) ← copies sb superblock_block sparse num_blockgroups
    some (record {
      part_start = part_start;
      superblock = sb;
      sparse = if sparse then 1 else 0;
      sysbuf = sysbuf;
      superblock_block = superblock_block;
      read_only = drv.read_only d;
      num_blockgroups = num_blockgroups;
      num_superblocks = num_superblocks;
      superblock_blocks = blocks;
    })

  -- A first read that fails leaves the new `sysbuf` without a value, and it is used.
  unfoldable pub ext2_mount : ℕ → ℕ → ℕ → drv.Device → Option (Reply (Volume drv.Device))
  ext2_mount part_start volume_size now d = do
    sysbuf ← elim (drv.block_read (u32 (part_start + 2)) d) [
      | some (ok bytes) ↦ some bytes
      | _ ↦ none
    ]
    bytes ← slice sysbuf 0 264
    let sb = read_superblock bytes
    if not (sb.s_magic == ext2_super_magic) then some failed else do
      blocks ← checked_shl sb.s_blocks_count sb.s_log_block_size
      if ltb volume_size blocks then some failed else do
        context ← build_context part_start sb sysbuf d
        (_, v) ← ext2_flush_superblock (record {
          device = d;
          context = record context { superblock = mark_mounted now context.superblock };
        })
        some (ok v)

  -- What is left of the volume is its device.
  unfoldable pub ext2_umount : Volume drv.Device → Option drv.Device
  ext2_umount v = do
    let clean = record v.context.superblock { s_state = ext2_valid_fs }
    (_, v') ← ext2_flush_superblock (record v { context = record v.context { superblock = clean } })
    some v'.device
