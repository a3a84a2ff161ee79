-- ===== src/Ext2/TreeTests.antt =====
-- The theorems on directories and paths, at a volume with a root directory.
use embext.Base.{◌+◌, ◌≡◌, refl, arith, some, true, [], ◌∷◌, ◌++◌, length}
use embext.Base.{replicate}
use embext.BlockPc.{Pc}
use embext.BlockPc.Laws.{block_pc}
use embext.Ext2.State.{Fs, enoent}
use embext.Ext2.Seek.{file, null}
use embext.Ext2.Directory.{Dirent, ext2_readdir}
use embext.Ext2.Directory.Content.{IsOpenAt}
use embext.Ext2.Directory.Entries.{entry_bytes}
use embext.Ext2.Directory.Readdir.{entry_read, ext2_readdir-entry}
use embext.Ext2.Lookup.{Outcome, elements, ext2_lookup_path}
use embext.Ext2.Lookup.Scan.{directory_bytes}
use embext.Ext2.Lookup.Resolve.{IsIdle, result_of}
use embext.Ext2.Lookup.Path.{
  IsErrorOf, AreComponents, elements-path_of, path_of, ext2_lookup_path-Resolves,
}
use embext.Ext2.OpenFile.{System, is_set}
use embext.Ext2.Create.{ext2_open}
use embext.Ext2.Create.Existing.{opened_or_refused, refusal, IsOpened}
use embext.Ext2.Create.Existing.{ext2_open-refusal}
use embext.Ext2.Create.Missing.{ext2_open-missing}
use embext.Ext2.Sample.Tree.{tree_fs, tree_volume, root_entries, root_entry, file_entry, root_inode}
use embext.Ext2.Sample.Tree.{file_inode, root_bytes, tree_volume-HasInodes, file-HasInode}
use embext.Ext2.Sample.Tree.{
  root-IsContent, tree_device, root_entry-IsEntryAt, file-Resolves, none-Resolves,
}

abbrev zero_dirent : Dirent
zero_dirent = record { d_ino = 0; d_name = replicate 256 0 }

abbrev system : System
system = record { memory = true; uid = 0; gid = 0 }

-- The root directory, open at its start.
abbrev root_fs : Fs Pc
root_fs = record tree_fs { file = record tree_fs.file { inode = root_inode; cursor = 0 } }

root_fs-IsOpenAt :
    IsOpenAt ⦃drv = block_pc⦄ tree_volume root_inode.i_block
      (length (directory_bytes root_entries))
      0
      root_fs
root_fs-IsOpenAt = record {
  on = refl;
  opened = refl;
  blocks = refl;
  sized = rw root_bytes refl;
  clean = refl;
  at = refl;
}

ext2_readdir-entry_example :
    (s' : Fs Pc) × (ext2_readdir ⦃drv = block_pc⦄ file zero_dirent root_fs
      ≡ some (entry_read zero_dirent root_entry, s'))
    × IsOpenAt ⦃drv = block_pc⦄ tree_volume root_inode.i_block
        (length (directory_bytes root_entries))
        (0 + (8 + 1 + 3))
        s'
ext2_readdir-entry_example =
    ext2_readdir-entry ⦃drv = block_pc⦄ 0 root_fs zero_dirent root_entry
      (entry_bytes file_entry ++ []) root-IsContent root_fs-IsOpenAt root_entry-IsEntryAt refl
      (omega arith)

components_of_file : AreComponents ((46 ∷ []) ∷ (97 ∷ []) ∷ [])
components_of_file = (
  λ e. absurd (ground (arith, e)),
  (omega arith, tt),
  (λ e. absurd (ground (arith, e)), (omega arith, tt), tt),
)

components_of_none : AreComponents ((98 ∷ []) ∷ [])
components_of_none = (λ e. absurd (ground (arith, e)), (omega arith, tt), tt)

elements-path_of_example :
    elements (path_of ((46 ∷ []) ∷ (97 ∷ []) ∷ [])) ≡ (46 ∷ []) ∷ (97 ∷ []) ∷ []
elements-path_of_example =
    elements-path_of ((46 ∷ []) ∷ (97 ∷ []) ∷ []) components_of_file (omega arith) (omega arith)

tree_fs-IsIdle : IsIdle ⦃drv = block_pc⦄ tree_volume (replicate 512 0) tree_fs
tree_fs-IsIdle = record { on = refl; sized = refl; opened = refl; clean = refl }

ext2_lookup_path-Resolves_example :
    (outcome : Outcome) × (s' : Fs Pc) × (ext2_lookup_path ⦃drv = block_pc⦄
        (path_of ((46 ∷ []) ∷ (97 ∷ []) ∷ []))
        zero_dirent
        tree_fs
      ≡ some (outcome, s'))
    × (outcome.result ≡ result_of ⦃drv = block_pc⦄ (some 3))
    × IsErrorOf (some 3) s'.errno
    × (s'.volume.device ≡ tree_device)
ext2_lookup_path-Resolves_example =
    ext2_lookup_path-Resolves ⦃drv = block_pc⦄ tree_volume (replicate 512 0) tree_fs
      ((46 ∷ []) ∷ (97 ∷ []) ∷ []) zero_dirent (some 3) tree_volume-HasInodes tree_fs-IsIdle refl
      components_of_file (omega arith) (omega arith) file-Resolves

-- Opened for writing and appending: `O_WRONLY` and `O_APPEND`.
ext2_open-refusal_example :
    (de' : Dirent) × (s' : Fs Pc) × (ext2_open ⦃drv = block_pc⦄ system
        (path_of ((46 ∷ []) ∷ (97 ∷ []) ∷ []))
        1025
        0
        zero_dirent
        tree_fs
      ≡ some (opened_or_refused ⦃drv = block_pc⦄ (refusal 1025 (is_set 0 512) 0 0x8000) de' s'))
    × IsOpened ⦃drv = block_pc⦄ tree_volume 3 file_inode 1025 s'
ext2_open-refusal_example =
    ext2_open-refusal ⦃drv = block_pc⦄ tree_volume (replicate 512 0) tree_fs
      ((46 ∷ []) ∷ (97 ∷ []) ∷ []) 3 file_inode system 1025 0 zero_dirent tree_volume-HasInodes refl
      refl refl refl components_of_file (omega arith) (omega arith) file-Resolves file-HasInode refl

ext2_open-missing_example :
    (de' : Dirent) × (s' : Fs Pc) × (ext2_open ⦃drv = block_pc⦄ system
        (path_of ((98 ∷ []) ∷ []))
        2
        0
        zero_dirent
        tree_fs
      ≡ some (record { fe = null; de = de' }, s'))
    × (s'.errno ≡ enoent)
    × (s'.volume.device ≡ tree_device)
ext2_open-missing_example =
    ext2_open-missing ⦃drv = block_pc⦄ tree_volume (replicate 512 0) tree_fs ((98 ∷ []) ∷ []) system
      2 0 enoent zero_dirent tree_volume-HasInodes refl refl refl refl components_of_none
      (omega arith) (omega arith) none-Resolves (omega arith) refl
