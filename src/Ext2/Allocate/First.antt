-- ===== src/Ext2/Allocate/First.antt =====
-- The searches of the allocator: the group with the most that is free, and the first clear bit.
use embext.Base.{ℕ, zero, suc, ◌+◌, ◌≤◌, ◌<◌, ◌≡◌, refl, sym, arith, some, List, ltb}
use native.Mathlib.Decide.{ℕ_discrete}
use embext.Ext2.Group.{ext2_get_bg_descriptor}
use embext.Driver.{ok}
use embext.Ext2.State.{ext2_block_size}
use embext.Base.{ltb→lt, true, false, Bool-cases, inl, inr}
use embext.Driver.{BlockDriver}
use embext.Ext2.Layout.{BlockGroupDescriptor}
use embext.Ext2.Monad.{◌>>=◌}
use embext.Ext2.State.{Volume}
use embext.Ext2.Bitmap.{test_bit, first_clear}
use embext.Ext2.Group.Mounted.{IsMounted}
use embext.Ext2.Group.Read.{group_of, sector_of, with_sysbuf, ext2_get_bg_descriptor-group_of}
use embext.Ext2.Allocate.{MostFree, better, none_free, find_most_free}

-- `best` is the answer for the groups below `n`: no group has more, and an earlier group has less.
-- When no group has any, the group named is 0.
pub record IsFirstMost (free : ℕ → ℕ) (n : ℕ) (best : MostFree) : Type 0 where
  pub most : (g : ℕ) → g < n → free g ≤ best.count
  pub first : (g : ℕ) → g < best.group → free g < best.count
  pub found : 0 < best.count → (best.group < n) × (free best.group ≡ best.count)
  pub full : best.count ≡ 0 → best.group ≡ 0

IsFirstMost-cast :
    (free : ℕ → ℕ) (n m : ℕ) (best : MostFree)
    → n ≡ m
    → IsFirstMost free n best
    → IsFirstMost free m best
IsFirstMost-cast free n m best e is = rw (sym e) is

IsFirstMost-better :
    (free : ℕ → ℕ) (n : ℕ) (best : MostFree)
    → IsFirstMost free n best
    → IsFirstMost free (n + 1) (better best (free n) n)
IsFirstMost-better free n best is = elim (Bool-cases (ltb best.count (free n))) [
  | inl e ↦ rw e (record {
    most = λ g lt. elim (ℕ_discrete g n) [
      | yes same ↦ rw same (omega arith)
      | no ne ↦ omega (arith, is.most g (omega arith), ltb→lt best.count (free n) e)
    ];
    first = λ g lt. omega (arith, is.most g lt, ltb→lt best.count (free n) e);
    found = λ pos. (omega arith, refl);
    full = λ zero. absurd (omega (arith, ltb→lt best.count (free n) e));
  })
  | inr e ↦ rw e (record {
    most = λ g lt. elim (ℕ_discrete g n) [
      | yes same ↦ rw same (ground (arith, e))
      | no ne ↦ is.most g (omega arith)
    ];
    first = is.first;
    found = λ pos. (omega (arith, (is.found pos).0), (is.found pos).1);
    full = is.full;
  })
]

first_clear-from :
    (byte left j : ℕ)
    → ((k : ℕ) → k < j → test_bit byte k ≡ true)
    → (first_clear left j byte ≤ j + left)
      × ((k : ℕ) → k < first_clear left j byte → test_bit byte k ≡ true)
      × (first_clear left j byte < j + left → test_bit byte (first_clear left j byte) ≡ false)
unfolding first_clear
first_clear-from byte zero j before = (omega arith, before, λ lt. absurd (omega arith))
first_clear-from byte (suc left) j before = elim (Bool-cases (test_bit byte j)) [
  | inl e ↦
      let (le, all, clear) =
        first_clear-from byte left (j + 1) (λ k lt. elim (ℕ_discrete k j) [
          | yes same ↦ rw same e
          | no ne ↦ before k (omega arith)
        ]) in
      rw e (omega (arith, le), all, λ lt. clear (omega arith))
  | inr e ↦ rw e (omega arith, before, λ lt. e)
]

module _ ⦃drv : BlockDriver⦄ where
  continues :
      (count : BlockGroupDescriptor → ℕ) (left i : ℕ) (best result : MostFree)
      (v v1 v' : Volume drv.Device) (bg : BlockGroupDescriptor)
      → ext2_get_bg_descriptor i v ≡ some (ok bg, v1)
      → find_most_free count left (i + 1) (better best (count bg) i) v1 ≡ some (result, v')
      → find_most_free count (suc left) i best v ≡ some (result, v')
  unfolding find_most_free ◌>>=◌
  continues count left i best result v v1 v' bg got ran = ground (arith, got, ran)

  find_most_free-from :
      (count : BlockGroupDescriptor → ℕ) (left i j : ℕ) (best : MostFree) (v : Volume drv.Device)
      → IsMounted v
      → i + left ≡ j
      → j ≤ v.context.num_blockgroups
      → IsFirstMost (λ g. count (group_of v g)) i best
      → (result : MostFree) × (sysbuf : List ℕ) × (find_most_free count left i best v
          ≡ some (result, with_sysbuf v sysbuf))
        × IsFirstMost (λ g. count (group_of v g)) j result
        × IsMounted (with_sysbuf v sysbuf)
  unfolding find_most_free ext2_block_size
  find_most_free-from count zero i j best v is e le first = (
    best,
    v.context.sysbuf,
    unfold ◌>>=◌ in refl,
    IsFirstMost-cast _ i j best (omega arith) first,
    is,
  )
  find_most_free-from count (suc left) i j best v is e le first =
      let (got, mounted) = ext2_get_bg_descriptor-group_of v i is (omega arith) in
      let v1 = with_sysbuf v (sector_of v i) in
      let bg = group_of v i in
      let step = IsFirstMost-better (λ g. count (group_of v g)) i best first in
      let (result, sysbuf, ran, most, kept) =
        find_most_free-from count left (i + 1) j (better best (count bg) i) v1 mounted (omega arith)
          le step in
      (
        result,
        sysbuf,
        continues count left i best result v v1 (with_sysbuf v sysbuf) bg got ran,
        most,
        kept,
      )

  -- On a mounted volume, the search of the allocator names a group with the most that is free, the
  -- first of those with as many, and changes nothing but `sysbuf`; when no group has any left, the
  -- count is 0 and the group is 0.
  pub find_most_free-IsFirstMost :
      (count : BlockGroupDescriptor → ℕ) (v : Volume drv.Device)
      → IsMounted v
      → (result : MostFree) × (sysbuf : List ℕ) × (find_most_free count v.context.num_blockgroups 0
            none_free v
          ≡ some (result, with_sysbuf v sysbuf))
        × IsFirstMost (λ g. count (group_of v g)) v.context.num_blockgroups result
        × IsMounted (with_sysbuf v sysbuf)
  find_most_free-IsFirstMost count v is =
      find_most_free-from count v.context.num_blockgroups 0 v.context.num_blockgroups none_free v is
        (omega arith) (omega arith)
        (record {
          most = λ g lt. absurd (omega arith);
          first = λ g lt. absurd (omega arith);
          found = λ pos. absurd (omega arith);
          full = λ zero. refl;
        })

-- The first clear bit of a byte is below 8 unless all eight bits are set, is clear, and every bit
-- before it is set; where all eight are set, 8 is returned.
pub first_clear-IsFirst :
    (byte : ℕ)
    → (first_clear 8 0 byte ≤ 8)
      × ((k : ℕ) → k < first_clear 8 0 byte → test_bit byte k ≡ true)
      × (first_clear 8 0 byte < 8 → test_bit byte (first_clear 8 0 byte) ≡ false)
first_clear-IsFirst byte = first_clear-from byte 8 0 (λ k lt. absurd (omega arith))
