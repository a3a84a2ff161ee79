-- ===== src/Ext2/BlockMap/Tree.antt =====
-- The tree of pointers below an inode: which pointers lead to which block of a file.
use native.Mathlib.Nat.{mul-le-mul_right}
use embext.Base.{ℕ, ◌+◌, ◌-◌, ◌*◌, ◌/◌, ◌%◌, ◌^◌, ◌≤◌, ◌<◌, ◌≡◌, arith, some, lt→ltb}
use embext.Driver.{BlockDriver}
use embext.Ext2.Monad.{M, ◌>>=◌}
use embext.Ext2.State.{Fs, u32}
use embext.Ext2.BlockMap.{no_block, inode_pointer, read_pointer, block_of_index}

-- A way from the inode to a block: an entry of `i_block`, or an entry for each level of the blocks
-- of pointers that `i_block[12]`, `[13]` and `[14]` lead to.
pub data Way : Type 0 where
  direct : ℕ → Way
  single : ℕ → Way
  double : ℕ → ℕ → Way
  triple : ℕ → ℕ → ℕ → Way

-- Each entry exists, where a block holds `n` pointers.
abbrev pub IsWay : ℕ → Way → Type 0
IsWay n (direct i) = i < 12
IsWay n (single i) = i < n
IsWay n (double i j) = (i < n) × (j < n)
IsWay n (triple i j k) = (i < n) × (j < n) × (k < n)

-- The blocks of a file are numbered way by way, the deeper entries counting faster.
abbrev pub rank : ℕ → Way → ℕ
rank n (direct i) = i
rank n (single i) = 12 + i
rank n (double i j) = 12 + n + (i * n + j)
rank n (triple i j k) = 12 + n + n * n + ((i * n + j) * n + k)

div_pair : (n i j : ℕ) → j < n → (i * n + j) / n ≡ i
div_pair n i j lt = grind arith

mod_pair : (n i j : ℕ) → j < n → (i * n + j) % n ≡ j
mod_pair n i j lt = grind arith

pair_lt : (n i j : ℕ) → i < n → j < n → i * n + j < n * n
pair_lt n i j li lj = grind arith

triple_lt : (n a k : ℕ) → a < n * n → k < n → a * n + k < n * n * n
triple_lt n a k la lk =
    let h : (a + 1) * n ≤ n * n * n = mul-le-mul_right {m = a + 1} {n = n * n} n (omega arith) in
    let e : (a + 1) * n ≡ a * n + n = grind arith in omega (arith, h, e)

div_triple : (n i j k : ℕ) → j < n → k < n → ((i * n + j) * n + k) / (n * n) ≡ i
div_triple n i j k lj lk = grind arith

square_le_cube : (n : ℕ) → 0 < n → n * n ≤ n * n * n
square_le_cube n pos = grind arith

module _ ⦃drv : BlockDriver⦄ where
  -- The block at the end of a way.
  unfoldable pub follow : Way → M (Fs drv.Device) ℕ
  follow (direct i) = inode_pointer i
  follow (single i) = do block ← inode_pointer 12; read_pointer block i
  follow (double i j) = do
    block ← inode_pointer 13
    block ← read_pointer block i
    read_pointer block j
  follow (triple i j k) = do
    block ← inode_pointer 14
    block ← read_pointer block i
    block ← read_pointer block j
    read_pointer block k

  -- Where a block holds `n` pointers and `n` cubed fits 32 bits, the index of a block is resolved
  -- along the way that it numbers: the loads and reads of the code are those of the way.
  pub block_of_index-rank :
      (n : ℕ) (way : Way)
      → 0 < n
      → n * n * n < 2 ^ 32
      → IsWay n way
      → block_of_index n (rank n way) ≡ follow way
  unfolding block_of_index follow
  block_of_index-rank n (direct i) pos small is = rw (lt→ltb i 12 is)
  block_of_index-rank n (single i) pos small is =
      let e : 12 + i - 12 ≡ i = omega arith in ground (arith, e)
  block_of_index-rank n (double i j) pos small (li, lj) =
      let e : 12 + n + (i * n + j) - 12 - n ≡ i * n + j = omega arith in
      let f = pair_lt n i j li lj in
      let c = square_le_cube n pos in
      let w : u32 (n * n) ≡ n * n = omega arith in
      ground (arith, e, w, div_pair n i j lj, mod_pair n i j lj)
  block_of_index-rank n (triple i j k) pos small (li, lj, lk) =
      let x = (i * n + j) * n + k in
      let e : 12 + n + n * n + x - 12 - n - n * n ≡ x = omega arith in
      let f = pair_lt n i j li lj in
      let g : x < n * n * n = triple_lt n (i * n + j) k f lk in
      let c = square_le_cube n pos in
      let w : u32 (n * n) ≡ n * n = omega arith in
      let v : u32 (n * n * n) ≡ n * n * n = omega arith in
      let d = div_triple n i j k lj lk in
      let m = mod_pair n (i * n + j) k lk in
      let q = div_pair n (i * n + j) k lk in
      let r = mod_pair n i j lj in ground (arith, e, w, v, d, m, q, r)

  -- Where a block holds `n` pointers and `n` cubed fits 32 bits, an index behind the last way gives
  -- `no_block`, and touches neither the device nor the file.
  pub block_of_index-behind :
      (n index : ℕ) (s : Fs drv.Device)
      → 0 < n
      → n * n * n < 2 ^ 32
      → 12 + n + n * n + n * n * n ≤ index
      → block_of_index n index s ≡ some (no_block, s)
  unfolding block_of_index
  block_of_index-behind n index s pos small behind =
      let c = square_le_cube n pos in
      let w : u32 (n * n) ≡ n * n = omega arith in
      let v : u32 (n * n * n) ≡ n * n * n = omega arith in unfold ◌>>=◌ in ground (arith, w, v)
