-- ===== src/Ext2/Mount/Copies.antt =====
-- The copies of the superblock that `ext2_mount` finds.
use native.Mathlib.Decide.{ℕ_discrete}
use embext.Base.{◌↔◌}
use embext.Base.{
  ℕ, zero, suc, ◌+◌, ◌%◌, ◌⊎◌, inl, inr, ◌<◌, ◌≤◌, ◌≡◌, refl, sym, arith, Bool, true, false,
}
use embext.Base.{Bool-cases, some, List, [], ◌∷◌, length, get_elem?, ◌==◌, if◌then◌else◌}
use embext.Ext2.Layout.{Superblock}
use embext.Ext2.Mount.{is_power_loop, is_power, has_copy, count_copies, sparse_blocks, dense_blocks}
use embext.Ext2.Mount.{copy_block, copies}

-- The groups that the test for a copy accepts.
abbrev pub is_found : ℕ → Bool
is_found i =
    if i == 0
    then true
    else if i == 1
    then true
    else if i == 3
    then true
    else if i == 5
    then true
    else i == 7

is_power-below : (x ofy : ℕ) → 1 < x → x < ofy → is_power x ofy ≡ some false
unfolding is_power is_power_loop
is_power-below x ofy one lt = let r : x % ofy ≡ x = grind arith in ground (arith, r)

≤-or-lt : (i n : ℕ) → (i ≤ n) ⊎ (n < i)
≤-or-lt i n = omega arith

small_groups : (i : ℕ) → i ≤ 7 → has_copy i ≡ some (is_found i)
unfolding has_copy is_power is_power_loop
small_groups zero le = refl
small_groups (suc zero) le = refl
small_groups (suc (suc zero)) le = refl
small_groups (suc (suc (suc zero))) le = refl
small_groups (suc (suc (suc (suc zero)))) le = refl
small_groups (suc (suc (suc (suc (suc zero))))) le = refl
small_groups (suc (suc (suc (suc (suc (suc zero)))))) le = refl
small_groups (suc (suc (suc (suc (suc (suc (suc zero))))))) le = refl
small_groups (suc (suc (suc (suc (suc (suc (suc (suc i)))))))) le = absurd (omega arith)

-- The test of `ext2_mount` for a copy is defined, and ends, for every group. It accepts the groups
-- 0, 1, 3, 5 and 7 and no other: the arguments of `is_power` are exchanged, so that no higher power
-- is found.
pub has_copy-is_found : (i : ℕ) → has_copy i ≡ some (is_found i)
unfolding has_copy
has_copy-is_found i = elim (≤-or-lt i 7) [
  | inl small ↦ small_groups i small
  | inr large ↦ ground (
    arith,
    is_power-below 3 i (omega arith) (omega arith),
    is_power-below 5 i (omega arith) (omega arith),
    is_power-below 7 i (omega arith) (omega arith),
  )
]

-- The groups that hold a copy: all of them, unless the filesystem is sparse.
abbrev pub holds_copy : Bool → ℕ → Bool
holds_copy sparse g = if sparse then is_found g else true

module _ (sb : Superblock) (superblock_block : ℕ) where
  -- The blocks of the copies in the groups from `i` on, with the groups left.
  pub kept : Bool → ℕ → ℕ → List ℕ
  kept sparse zero i = []
  kept sparse (suc left) i =
      let rest = kept sparse left (i + 1) in
      if holds_copy sparse i then copy_block sb superblock_block i ∷ rest else rest

  sparse_blocks-kept :
      (left i : ℕ) → sparse_blocks sb superblock_block left i ≡ some (kept true left i)
  unfolding sparse_blocks kept
  sparse_blocks-kept zero i = refl
  sparse_blocks-kept (suc left) i =
      rw (has_copy-is_found i, sparse_blocks-kept left (i + 1)) (ground arith)

  count_copies-kept : (left i n : ℕ) → count_copies left i n ≡ some (n + length (kept true left i))
  unfolding count_copies kept
  count_copies-kept zero i n = ground arith
  count_copies-kept (suc left) i n =
      rw (has_copy-is_found i, count_copies-kept left (i + 1)) (ground arith)

  dense_blocks-kept : (left i : ℕ) → dense_blocks sb superblock_block left i ≡ kept false left i
  unfolding dense_blocks kept
  dense_blocks-kept zero i = refl
  dense_blocks-kept (suc left) i = rw (dense_blocks-kept left (i + 1))

  length-dense : (left i : ℕ) → length (kept false left i) ≡ left
  unfolding kept
  length-dense zero i = refl
  length-dense (suc left) i = ground (arith, length-dense left (i + 1))

  kept-holds :
      (sparse : Bool) (left i : ℕ)
      → holds_copy sparse i ≡ true
      → kept sparse (suc left) i ≡ copy_block sb superblock_block i ∷ kept sparse left (i + 1)
  unfolding kept
  kept-holds sparse left i e = rw e

  kept-skips :
      (sparse : Bool) (left i : ℕ)
      → holds_copy sparse i ≡ false
      → kept sparse (suc left) i ≡ kept sparse left (i + 1)
  unfolding kept
  kept-skips sparse left i e = rw e

  -- The block of a group of a range, which holds a copy.
  abbrev IsCopyIn : Bool → ℕ → ℕ → ℕ → Type 0
  IsCopyIn sparse left i b =
      (g : ℕ) × (i ≤ g)
      × (g < i + left)
      × (holds_copy sparse g ≡ true)
      × (b ≡ copy_block sb superblock_block g)

  widened :
      (sparse : Bool) (left i b : ℕ)
      → IsCopyIn sparse left (i + 1) b
      → IsCopyIn sparse (suc left) i b
  widened sparse left i b (g, ig, gl, holds, e) = (g, omega arith, omega arith, holds, e)

  -- The block is the first one, or one of the others.
  sound_first :
      (sparse : Bool) (left i k b : ℕ)
      → holds_copy sparse i ≡ true
      → get_elem? (copy_block sb superblock_block i ∷ kept sparse left (i + 1)) k ≡ some b
      → ((j : ℕ) → get_elem? (kept sparse left (i + 1)) j ≡ some b → IsCopyIn sparse left (i + 1) b)
      → IsCopyIn sparse (suc left) i b
  sound_first sparse left i zero b holds at others = (i, omega arith, omega arith, holds, cc at)
  sound_first sparse left i (suc k) b holds at others = widened sparse left i b (others k at)

  -- A listed block is that of a group that holds a copy.
  kept_sound :
      (sparse : Bool) (left i k b : ℕ)
      → get_elem? (kept sparse left i) k ≡ some b
      → IsCopyIn sparse left i b
  kept_sound sparse zero i k b at = absurd (unfold kept in ground (arith, at))
  kept_sound sparse (suc left) i k b at = elim (Bool-cases (holds_copy sparse i)) [
    | inl e ↦
        sound_first sparse left i k b e (rw (sym (kept-holds sparse left i e)) at)
          (λ j at_j. kept_sound sparse left (i + 1) j b at_j)
    | inr e ↦
        widened sparse left i b
          (kept_sound sparse left (i + 1) k b (rw (sym (kept-skips sparse left i e)) at))
  ]

  -- The block of a group that holds a copy is listed.
  kept_complete :
      (sparse : Bool) (left i g : ℕ)
      → i ≤ g
      → g < i + left
      → holds_copy sparse g ≡ true
      → (k : ℕ) × (get_elem? (kept sparse left i) k ≡ some (copy_block sb superblock_block g))
  kept_complete sparse zero i g ig gl holds = absurd (omega arith)
  kept_complete sparse (suc left) i g ig gl holds = elim (ℕ_discrete i g) [
    | yes e ↦ (zero, rw (kept-holds sparse left i (rw e holds), e))
    | no ne ↦
        let (k, at) = kept_complete sparse left (i + 1) g (omega arith) (omega arith) holds in
        elim (Bool-cases (holds_copy sparse i)) [
          | inl f ↦ (suc k, rw (kept-holds sparse left i f) at)
          | inr f ↦ (k, rw (kept-skips sparse left i f) at)
        ]
  ]

  counted :
      (sparse : Bool) (num : ℕ)
      → copies sb superblock_block sparse num ≡ some (length (kept sparse num 0), kept sparse num 0)
  unfolding copies
  counted true num = ground (arith, count_copies-kept num 0 0, sparse_blocks-kept num 0)
  counted false num = ground (arith, dense_blocks-kept num 0, length-dense num 0)

  -- The list of the copies of a volume with `num` groups is always found, and its length is the
  -- number of copies counted. It holds the block of each group that holds a copy, and no other
  -- block: on a sparse filesystem of the groups 0, 1, 3, 5 and 7, on any other of every group.
  pub copies-listed :
      (sparse : Bool) (num : ℕ)
      → (blocks : List ℕ) × (copies sb superblock_block sparse num ≡ some (length blocks, blocks))
        × ((b : ℕ)
            → ((k : ℕ) × (get_elem? blocks k ≡ some b)) ↔ (
                (g : ℕ) × (g < num)
                × (holds_copy sparse g ≡ true)
                × (b ≡ copy_block sb superblock_block g)))
  unfolding copies
  copies-listed sparse num = (
    kept sparse num 0,
    counted sparse num,
    λ b. (
      λ (k, at).
          let (g, _, lt, holds, e) = kept_sound sparse num 0 k b at in (g, omega arith, holds, e),
      λ (g, lt, holds, e).
          let (k, at) = kept_complete sparse num 0 g (omega arith) (omega arith) holds in
          (k, rw e at),
    ),
  )
