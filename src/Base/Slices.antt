-- ===== src/Base/Slices.antt =====
-- Parts of arrays: what a `memcpy` reads and writes. Out of bounds is `none`.
use Prim.Native.Nat.{ℕ, ◌+◌, ◌-◌, ◌≤◌}
use mathlib.Core.Path.{◌≡◌, refl, sym, ap, ◌∙◌}
use mathlib.Core.List.{List, ◌++◌, append_assoc}
use mathlib.Core.Option.{Option, none, some}
use native.Mathlib.Omega.{arith}
use embext.Base.Tests.{leb, if◌then◌else◌, le→leb}
use embext.Base.Lists.{length, take, drop, length-append, length-take, length-drop, drop-drop}
use embext.Base.Lists.{take-append-drop, take-append_left, drop-append_left, take-append_le}
use embext.Base.Lists.{drop-append_le}

module _ {ℓ} {A : Type ℓ} where
  -- `n` elements from index `i`: what a `memcpy` from `&xs[i]` reads, `none` out of bounds.
  unfoldable pub slice : List A → ℕ → ℕ → Option (List A)
  slice xs i n = if leb (i + n) (length xs) then some (take n (drop i xs)) else none

  -- `xs` with `ys` written from index `i` on.
  unfoldable pub overlay : List A → ℕ → List A → List A
  overlay xs i ys = take i xs ++ (ys ++ drop (i + length ys) xs)

  -- A `memcpy` to `&xs[i]`, `none` out of bounds.
  unfoldable pub splice : List A → ℕ → List A → Option (List A)
  splice xs i ys = if leb (i + length ys) (length xs) then some (overlay xs i ys) else none

  pub slice-append :
      (xs ys zs : List A) (i n : ℕ)
      → i ≡ length xs
      → n ≡ length ys
      → slice (xs ++ (ys ++ zs)) i n ≡ some ys
  unfolding slice
  slice-append xs ys zs i n ei en = rw (
    le→leb (i + n) (length (xs ++ (ys ++ zs)))
        (omega (arith, length-append xs (ys ++ zs), length-append ys zs)),
    drop-append_left i xs (ys ++ zs) ei,
    take-append_left n ys zs en,
  )

  pub slice_inside :
      (xs : List A) (i n : ℕ) → i + n ≤ length xs → slice xs i n ≡ some (take n (drop i xs))
  unfolding slice
  slice_inside xs i n h = rw (le→leb (i + n) (length xs) h)

  pub splice_inside :
      (xs : List A) (i : ℕ) (ys : List A)
      → i + length ys ≤ length xs
      → splice xs i ys ≡ some (overlay xs i ys)
  unfolding splice
  splice_inside xs i ys h = rw (le→leb (i + length ys) (length xs) h)

  pub length-overlay :
      (xs : List A) (i : ℕ) (ys : List A)
      → i + length ys ≤ length xs
      → length (overlay xs i ys) ≡ length xs
  unfolding overlay
  length-overlay xs i ys h = omega (
    arith,
    length-append (take i xs) (ys ++ drop (i + length ys) xs),
    length-append ys (drop (i + length ys) xs),
    length-take i xs,
    length-drop (i + length ys) xs,
  )

  -- What was written is read back.
  pub slice-overlay_self :
      (xs : List A) (i n : ℕ) (ys : List A)
      → n ≡ length ys
      → i + length ys ≤ length xs
      → slice (overlay xs i ys) i n ≡ some ys
  unfolding overlay
  slice-overlay_self xs i n ys e h =
      slice-append (take i xs) ys (drop (i + length ys) xs) i n (omega (arith, length-take i xs)) e

  -- A read before or behind what was written is not changed.
  take-drop-take :
      (xs zs : List A) (i j n : ℕ)
      → j + n ≤ i
      → i ≤ length xs
      → take n (drop j (take i xs ++ zs)) ≡ take n (drop j (take i xs))
  take-drop-take xs zs i j n before h = rw (
    drop-append_le j (take i xs) zs (omega (arith, length-take i xs)),
    take-append_le n (drop j (take i xs)) zs
        (omega (arith, length-drop j (take i xs), length-take i xs)),
  )

  pub slice-overlay_before :
      (xs : List A) (i j n : ℕ) (ys : List A)
      → j + n ≤ i
      → i + length ys ≤ length xs
      → slice (overlay xs i ys) j n ≡ slice xs j n
  unfolding overlay
  slice-overlay_before xs i j n ys before h =
      rw
        (
          slice_inside (overlay xs i ys) j n (omega (arith, length-overlay xs i ys h)),
          slice_inside xs j n (omega arith),
        )
        (ap some (
          take-drop-take xs (ys ++ drop (i + length ys) xs) i j n before (omega arith)
          ∙ sym (take-drop-take xs (drop i xs) i j n before (omega arith))
          ∙ ap (λ zs. take n (drop j zs)) (take-append-drop i xs)))

  drop-overlay :
      (xs : List A) (i j : ℕ) (ys : List A)
      → i + length ys ≤ j
      → i + length ys ≤ length xs
      → drop j (overlay xs i ys) ≡ drop j xs
  unfolding overlay
  drop-overlay xs i j ys behind h =
      let m = i + length ys in
      let e : j ≡ m + (j - m) = omega arith in
      let front : m ≡ length (take i xs ++ ys) =
        omega (arith, length-append (take i xs) ys, length-take i xs) in
      rw
        (
          ← append_assoc (take i xs) ys (drop m xs),
          e,
          ← drop-drop m (j - m) ((take i xs ++ ys) ++ drop m xs),
          drop-append_left m (take i xs ++ ys) (drop m xs) front,
        )
        (drop-drop m (j - m) xs)

  pub slice-overlay_behind :
      (xs : List A) (i j n : ℕ) (ys : List A)
      → i + length ys ≤ j
      → i + length ys ≤ length xs
      → slice (overlay xs i ys) j n ≡ slice xs j n
  unfolding overlay
  slice-overlay_behind xs i j n ys behind h =
      unfold slice in rw (length-overlay xs i ys h, drop-overlay xs i j ys behind h)

  -- Writing over the middle of a list.
  pub overlay-append :
      (xs old ys new : List A) (i : ℕ)
      → i ≡ length xs
      → length old ≡ length new
      → overlay (xs ++ (old ++ ys)) i new ≡ xs ++ (new ++ ys)
  unfolding overlay
  overlay-append xs old ys new i at sized =
      let behind : i + length new ≡ length (xs ++ old) = omega (arith, length-append xs old) in
      rw
        (
          take-append_left i xs (old ++ ys) at,
          ← append_assoc xs old ys,
          drop-append_left (i + length new) (xs ++ old) ys behind,
        )
        refl
