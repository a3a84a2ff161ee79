-- ===== src/Ext2/Directory/Entries.antt =====
-- Entries of a directory as bytes.
use embext.Base.{ℕ, ◌+◌, ◌%◌, ◌^◌, ◌<◌, ◌≤◌, ◌≡◌, ◌≢◌, refl, sym, ap, ◌∙◌}
use embext.Base.{arith, List, [], ◌∷◌, ◌++◌, length, take, drop, set, overlay}
use embext.Base.{length-append, length-drop, drop-drop, take-append_left, drop-append_left}
use embext.Base.{length-overlay, length-set}
use mathlib.Core.List.{append_assoc, append-nil}
use embext.Bytes.{le_decode, le_encode, pack}
use embext.Bytes.RoundTrip.{length-le_encode, le_decode-le_encode}
use embext.Ext2.Directory.{DirHeader, dir_header_bytes, c_string, stored_over}

-- An entry: the inode it names, its name, its type, and the bytes behind the name.
pub record DirEntry : Type 0 where
  pub number : ℕ
  pub name : List ℕ
  pub kind : ℕ
  pub pad : List ℕ

abbrev pub header_of : DirEntry → DirHeader
header_of e = record {
  inode = e.number;
  rec_len = 8 + length e.name + length e.pad;
  name_len = length e.name;
  file_type = e.kind;
}

unfoldable pub entry_bytes : DirEntry → List ℕ
entry_bytes e = dir_header_bytes (header_of e) ++ (e.name ++ e.pad)

abbrev pub AreNonzero : List ℕ → Type 0
AreNonzero [] = Unit {0}
AreNonzero (b ∷ bs) = (b ≢ 0) × AreNonzero bs

-- An entry at byte `c` of a directory that `ext2_readdir` reads whole: its name lies in one sector.
pub record IsEntryAt (c : ℕ) (e : DirEntry) : Type 0 where
  pub numbered : 0 < e.number
  pub small : e.number < 2 ^ 31
  pub text : AreNonzero e.name
  pub short : length e.name ≤ 255
  pub fits : 8 + length e.name + length e.pad < 2 ^ 16
  pub typed : e.kind < 256
  pub aligned : c % 4 ≡ 0
  pub inside : (c + 8) % 512 + length e.name ≤ 512

-- What a copy to the start of an array leaves.
overlay-start : (old name : List ℕ) → overlay old 0 name ≡ name ++ drop (length name) old
unfolding overlay
overlay-start old name = let e : 0 + length name ≡ length name = omega arith in rw e refl

drop-length : {A : Type 0} (xs : List A) → drop (length xs) xs ≡ []
drop-length [] = refl
drop-length (x ∷ xs) = drop-length xs

-- The variable that a read has filled.
pub stored_over-le_encode : (n old x : ℕ) → x < 256 ^ n → stored_over n old (le_encode n x) ≡ x
unfolding stored_over
stored_over-le_encode n old x lt =
    let e : length (le_encode n x) ≡ length (le_encode n old) =
      length-le_encode n x ∙ sym (length-le_encode n old) in
    rw (overlay-start (le_encode n old) (le_encode n x), e, drop-length (le_encode n old))
      (ap le_decode (append-nil (le_encode n x)) ∙ le_decode-le_encode n x lt)

-- The name in the static variable.
abbrev pub name_in : List ℕ → List ℕ → List ℕ
name_in old name = set (overlay old 0 name) (length name) 0

c_string-set :
    (old name : List ℕ)
    → AreNonzero name
    → length name < length old
    → c_string (set (name ++ drop (length name) old) (length name) 0) ≡ name
c_string-set [] name text lt = absurd (omega arith)
c_string-set (b ∷ bs) [] text lt = refl
c_string-set (b ∷ bs) (x ∷ xs) (nonzero, text) lt =
    ground (arith, nonzero, c_string-set bs xs text (omega arith))

pub c_string-name_in :
    (old name : List ℕ)
    → AreNonzero name
    → length name < length old
    → c_string (name_in old name) ≡ name
c_string-name_in old name text lt = rw (overlay-start old name) (c_string-set old name text lt)

pub length-name_in :
    (old name : List ℕ) → length name < length old → length (name_in old name) ≡ length old
length-name_in old name lt =
    length-set (overlay old 0 name) (length name) 0 ∙ length-overlay old 0 name (omega arith)

-- The bytes of a file before and behind a part of it.
pub peel :
    (c : ℕ) (content xs ys : List ℕ) (k : ℕ)
    → drop c content ≡ xs ++ ys
    → length xs ≡ k
    → (take k (drop c content) ≡ xs) × (drop (c + k) content ≡ ys)
peel c content xs ys k e sized = (
  rw (e, take-append_left k xs ys (sym sized)) refl,
  sym (drop-drop c k content) ∙ ap (drop k) e ∙ drop-append_left k xs ys (sym sized),
)

-- The steps of `ext2_readdir` over the bytes of an entry.
pub record IsPeeled (c : ℕ) (content : List ℕ) (e : DirEntry) (rest : List ℕ) : Type 0 where
  pub ino : take 4 (drop c content) ≡ le_encode 4 e.number
  pub len : take 2 (drop (c + 4) content) ≡ le_encode 2 (8 + length e.name + length e.pad)
  pub name_len : take 1 (drop (c + 4 + 2) content) ≡ le_encode 1 (length e.name)
  pub kind : take 1 (drop (c + 4 + 2 + 1) content) ≡ le_encode 1 e.kind
  pub name : take (length e.name) (drop (c + 4 + 2 + 1 + 1) content) ≡ e.name
  pub behind : drop (c + (8 + length e.name + length e.pad)) content ≡ rest
  pub ends : c + (8 + length e.name + length e.pad) ≤ length content

entry_bytes-parts :
    (e : DirEntry) (rest : List ℕ)
    → entry_bytes e ++ rest
      ≡ le_encode 4 e.number
        ++ (le_encode 2 (8 + length e.name + length e.pad)
            ++ (le_encode 1 (length e.name) ++ (le_encode 1 e.kind ++ (e.name ++ (e.pad ++ rest)))))
unfolding entry_bytes dir_header_bytes pack
entry_bytes-parts e rest = simp append_assoc

pub length-entry_bytes : (e : DirEntry) → length (entry_bytes e) ≡ 8 + length e.name + length e.pad
unfolding entry_bytes dir_header_bytes pack
length-entry_bytes e = omega (
  arith,
  length-append (dir_header_bytes (header_of e)) (e.name ++ e.pad),
  length-append e.name e.pad,
  length-append (le_encode 4 e.number) (
      le_encode 2 (8 + length e.name + length e.pad)
      ++ (le_encode 1 (length e.name) ++ (le_encode 1 e.kind ++ []))),
  length-append (le_encode 2 (8 + length e.name + length e.pad))
      (le_encode 1 (length e.name) ++ (le_encode 1 e.kind ++ [])),
  length-append (le_encode 1 (length e.name)) (le_encode 1 e.kind ++ []),
  length-append (le_encode 1 e.kind) [],
  length-le_encode 4 e.number,
  length-le_encode 2 (8 + length e.name + length e.pad),
  length-le_encode 1 (length e.name),
  length-le_encode 1 e.kind,
)

pub peeled :
    (c : ℕ) (content : List ℕ) (e : DirEntry) (rest : List ℕ)
    → c ≤ length content
    → drop c content ≡ entry_bytes e ++ rest
    → IsPeeled c content e rest
peeled c content e rest le whole =
    let (ino, d4) =
      peel c content _ _ 4 (whole ∙ entry_bytes-parts e rest) (length-le_encode 4 _) in
    let (len, d6) = peel (c + 4) content _ _ 2 d4 (length-le_encode 2 _) in
    let (name_len, d7) = peel (c + 4 + 2) content _ _ 1 d6 (length-le_encode 1 _) in
    let (kind, d8) = peel (c + 4 + 2 + 1) content _ _ 1 d7 (length-le_encode 1 _) in
    let (name, dn) = peel (c + 4 + 2 + 1 + 1) content _ _ (length e.name) d8 refl in
    let (pad, dp) = peel (c + 4 + 2 + 1 + 1 + length e.name) content _ _ (length e.pad) dn refl in
    let place : c + (8 + length e.name + length e.pad)
        ≡ c + 4 + 2 + 1 + 1 + length e.name + length e.pad =
      omega arith in
    record {
      ino = ino;
      len = len;
      name_len = name_len;
      kind = kind;
      name = name;
      behind = rw place dp;
      ends = omega (
        arith,
        ap length whole,
        length-append (entry_bytes e) rest,
        length-entry_bytes e,
        length-drop c content,
      );
    }
