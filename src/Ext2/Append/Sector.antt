-- ===== src/Ext2/Append/Sector.antt =====
-- The bytes of a sector with an entry of a directory, and what writes of its header and behind it
-- leave.
use embext.Base.{ℕ, ◌+◌, ◌≡◌, arith, refl}
use embext.Base.{List, ◌++◌, ◌∙◌, ap, length, take, overlay, overlay-append, length-append}
use embext.Base.{sym}
use mathlib.Core.List.{append_assoc}
use embext.Bytes.{pack, le_encode}
use embext.Ext2.Directory.{DirHeader, dir_header_bytes}

pub length-dir_header_bytes : (h : DirHeader) → length (dir_header_bytes h) ≡ 8
unfolding dir_header_bytes pack le_encode
length-dir_header_bytes h = refl

pub take-dir_header_bytes : (h : DirHeader) → take 8 (dir_header_bytes h) ≡ dir_header_bytes h
unfolding dir_header_bytes pack le_encode
take-dir_header_bytes h = refl

-- A header, what is kept of the entry behind it, and what comes then.
abbrev pub entries : List ℕ → DirHeader → List ℕ → List ℕ → List ℕ
entries before header kept behind = before ++ (dir_header_bytes header ++ (kept ++ behind))

pub cut :
    (before kept behind : List ℕ) (old new : DirHeader) (i : ℕ)
    → i ≡ length before
    → overlay (entries before old kept behind) i (take 8 (dir_header_bytes new))
      ≡ entries before new kept behind
cut before kept behind old new i at = rw (take-dir_header_bytes new) (
    overlay-append before (dir_header_bytes old) (kept ++ behind) (dir_header_bytes new) i at
      (length-dir_header_bytes old ∙ sym (length-dir_header_bytes new)))

-- A write over `old`, behind the entry.
pub over :
    (before kept old behind new : List ℕ) (header : DirHeader) (i : ℕ)
    → i ≡ length before + 8 + length kept
    → length old ≡ length new
    → overlay (entries before header kept (old ++ behind)) i new
      ≡ entries before header kept (new ++ behind)
over before kept old behind new header i at sized =
    let front = before ++ (dir_header_bytes header ++ kept) in
    let apart : (zs : List ℕ) → entries before header kept zs ≡ front ++ zs = λ zs. sym (
      append_assoc before (dir_header_bytes header ++ kept) zs
      ∙ ap (λ ys. before ++ ys) (append_assoc (dir_header_bytes header) kept zs)) in
    let width : i ≡ length front = omega (
      arith,
      length-append before (dir_header_bytes header ++ kept),
      length-append (dir_header_bytes header) kept,
      length-dir_header_bytes header,
    ) in
    rw (apart (old ++ behind), apart (new ++ behind))
      (overlay-append front old behind new i width sized)

pub length-entries :
    (before kept old_header old_name after : List ℕ) (header : DirHeader)
    → length (entries before header kept (old_header ++ (old_name ++ after)))
      ≡ length before + 8 + length kept + length old_header + length old_name + length after
length-entries before kept old_header old_name after header =
    let behind = old_header ++ (old_name ++ after) in
    omega (
      arith,
      length-append before (dir_header_bytes header ++ (kept ++ behind)),
      length-append (dir_header_bytes header) (kept ++ behind),
      length-append kept behind,
      length-append old_header (old_name ++ after),
      length-append old_name after,
      length-dir_header_bytes header,
    )

-- The name, behind the new header.
pub over_name :
    (before kept old behind name : List ℕ) (header new : DirHeader) (i : ℕ)
    → i ≡ length before + 8 + length kept + 8
    → length old ≡ length name
    → overlay (entries before header kept (dir_header_bytes new ++ (old ++ behind))) i name
      ≡ entries before header kept (dir_header_bytes new ++ (name ++ behind))
over_name before kept old behind name header new i at sized =
    let joined : (zs : List ℕ)
        → entries before header kept (dir_header_bytes new ++ zs)
          ≡ entries before header (kept ++ dir_header_bytes new) zs =
      λ zs.
        ap (λ ys. before ++ (dir_header_bytes header ++ ys))
          (sym (append_assoc kept (dir_header_bytes new) zs)) in
    let width : i ≡ length before + 8 + length (kept ++ dir_header_bytes new) =
      omega (arith, at, length-append kept (dir_header_bytes new), length-dir_header_bytes new) in
    rw (joined (old ++ behind), joined (name ++ behind))
      (over before (kept ++ dir_header_bytes new) old behind name header i width sized)
