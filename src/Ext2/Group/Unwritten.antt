-- ===== src/Ext2/Group/Unwritten.antt =====
-- What reading descriptors, and writing them back, leaves as it was.
use embext.Base.{ℕ, zero, suc, ◌+◌, refl, arith, List, []}
use embext.Driver.{BlockDriver}
use embext.Ext2.Layout.{BlockGroupDescriptor}
use embext.Ext2.Monad.{set_context}
use embext.Ext2.Monad.Keeps.{Keeps, Keeps-modify, Keeps-pure, Keeps-bind, keeps_rules}
use embext.Ext2.State.{Volume}
use embext.Ext2.Sector.{read_sysbuf}
use embext.Ext2.Group.{ext2_get_bg_descriptor, write_copy, write_copies, ext2_write_bg_descriptor}

-- A volume but for the content of its `sysbuf`.
unfoldable pub forget : {Device : Type 0} → Volume Device → Volume Device
forget v = record v { context = record v.context { sysbuf = [] } }

module _ ⦃drv : BlockDriver⦄ where
  pub read_sysbuf-forget : (sector : ℕ) → Keeps forget (read_sysbuf sector)
  unfolding read_sysbuf forget
  read_sysbuf-forget sector = record { at = λ v a v' h. ground arith }

  pub set_sysbuf-forget :
      (bytes : List ℕ)
      → Keeps (forget {Device = drv.Device}) (set_context (λ c. record c { sysbuf = bytes }))
  unfolding forget
  set_sysbuf-forget bytes = Keeps-modify _ (λ s. refl)

  pub ruleset group_rules = (keeps_rules, read_sysbuf-forget, set_sysbuf-forget)

  pub get_bg-forget : (block_group : ℕ) → Keeps forget (ext2_get_bg_descriptor block_group)
  unfolding ext2_get_bg_descriptor
  get_bg-forget block_group = search group_rules depth 14

  write_copy-forget :
      (bg : BlockGroupDescriptor) (block_group i : ℕ) → Keeps forget (write_copy bg block_group i)
  unfolding write_copy
  write_copy-forget bg block_group i = search group_rules depth 14

  write_copies-forget :
      (bg : BlockGroupDescriptor) (block_group left i : ℕ)
      → Keeps forget (write_copies bg block_group left i)
  unfolding write_copies
  write_copies-forget bg block_group zero i = Keeps-pure tt
  write_copies-forget bg block_group (suc left) i =
      Keeps-bind _ _ (write_copy-forget bg block_group i)
        (λ _. write_copies-forget bg block_group left (i + 1))

  pub write_bg-forget :
      (bg : BlockGroupDescriptor) (block_group : ℕ)
      → Keeps forget (ext2_write_bg_descriptor bg block_group)
  unfolding ext2_write_bg_descriptor
  write_bg-forget bg block_group = search (group_rules, write_copies-forget) depth 14
