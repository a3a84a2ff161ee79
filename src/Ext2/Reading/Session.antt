-- ===== src/Ext2/Reading/Session.antt =====
-- Sessions of calls that read.
use embext.Base.{ℕ, List, ◌≡◌, some, ℤ}
use embext.Driver.{BlockDriver, Reply}
use embext.Ext2.State.{Fs}
use embext.Ext2.Seek.{Pointer, Stat, ext2_lseek, ext2_fstat, ext2_isatty}
use embext.Ext2.Transfer.{ReadResult, ext2_read}
use embext.Ext2.Open.{ext2_open_inode}
use embext.Ext2.Directory.{Dirent, Entry, ext2_readdir}
use embext.Ext2.Lookup.{Outcome, ext2_lookup_path}
use embext.Ext2.OpenFile.{System, Opened}
use embext.Ext2.Create.{ext2_open}
use embext.Ext2.Reading.Quiet.{IsReading}
use embext.Ext2.Reading.Calls.{read-Reading, lseek-Reading, fstat-Reading, isatty-Reading}
use embext.Ext2.Reading.Calls.{readdir-Reading, lookup_path-Reading, open_inode-Reading}
use embext.Ext2.Reading.Calls.{open-Reading}

module _ ⦃drv : BlockDriver⦄ where
  -- A call that reads, with any arguments and any result, from one state to the next. Time
  -- passes between two calls.
  pub data ReadingStep : Fs drv.Device → Fs drv.Device → Type 0 where
    reads :
        (s s' : Fs drv.Device) (vfe : Pointer) (count : ℕ) (r : ReadResult)
        → ext2_read vfe count s ≡ some (r, s')
        → ReadingStep s s'
    seeks :
        (s s' : Fs drv.Device) (vfe : Pointer) (offset : ℤ) (whence : ℕ) (r : ℤ)
        → ext2_lseek vfe offset whence s ≡ some (r, s')
        → ReadingStep s s'
    stats :
        (s s' : Fs drv.Device) (vfe : Pointer) (r : Reply Stat)
        → ext2_fstat vfe s ≡ some (r, s')
        → ReadingStep s s'
    asks_tty :
        (s s' : Fs drv.Device) (vfe : Pointer) (r : ℤ)
        → ext2_isatty vfe s ≡ some (r, s')
        → ReadingStep s s'
    lists :
        (s s' : Fs drv.Device) (vfe : Pointer) (de : Dirent) (r : Entry)
        → ext2_readdir vfe de s ≡ some (r, s')
        → ReadingStep s s'
    looks_up :
        (s s' : Fs drv.Device) (path : List ℕ) (de : Dirent) (r : Outcome)
        → ext2_lookup_path path de s ≡ some (r, s')
        → ReadingStep s s'
    opens_inode :
        (s s' : Fs drv.Device) (inode : ℕ) (r : Reply (Unit {0}))
        → ext2_open_inode inode s ≡ some (r, s')
        → ReadingStep s s'
    opens :
        (s s' : Fs drv.Device) (system : System) (name : List ℕ) (mode : ℕ) (de : Dirent)
        (r : Opened)
        → ext2_open system name 0 mode de s ≡ some (r, s')
        → ReadingStep s s'
    waits : (s : Fs drv.Device) (now : ℕ) → ReadingStep s (record s { now = now })

  -- Any number of them.
  pub data Session : Fs drv.Device → Fs drv.Device → Type 0 where
    done : (s : Fs drv.Device) → Session s s
    goes_on : (s s1 s' : Fs drv.Device) → ReadingStep s s1 → Session s1 s' → Session s s'

  step-IsReading :
      (d : drv.Device) (s s' : Fs drv.Device) → ReadingStep s s' → IsReading d s → IsReading d s'
  step-IsReading d s s' (reads _ _ vfe count r e) is = (read-Reading vfe count).at s r s' is e
  step-IsReading d s s' (seeks _ _ vfe offset whence r e) is =
      (lseek-Reading vfe offset whence).at s r s' is e
  step-IsReading d s s' (stats _ _ vfe r e) is = (fstat-Reading vfe).at s r s' is e
  step-IsReading d s s' (asks_tty _ _ vfe r e) is = (isatty-Reading vfe).at s r s' is e
  step-IsReading d s s' (lists _ _ vfe de r e) is = (readdir-Reading vfe de).at s r s' is e
  step-IsReading d s s' (looks_up _ _ path de r e) is = (lookup_path-Reading path de).at s r s' is e
  step-IsReading d s s' (opens_inode _ _ inode r e) is = (open_inode-Reading inode).at s r s' is e
  step-IsReading d s s' (opens _ _ system name mode de r e) is =
      (open-Reading system name mode de).at s r s' is e
  step-IsReading d s _ (waits _ now) is = record {
    same_device = is.same_device;
    clean = is.clean;
    reader = is.reader;
  }

  -- However a volume is damaged: in a session of any number of calls that read (`ext2_read`,
  -- `ext2_lseek`, `ext2_fstat`, `ext2_isatty`, `ext2_readdir`, `ext2_lookup_path`,
  -- `ext2_open_inode`, and `ext2_open` with `O_RDONLY`), each with any arguments and any result but
  -- undefined behaviour, starting with a clean buffer and a file that is not open for writing, the
  -- device stays what it was, the buffer stays clean, and the file does not become one for writing.
  pub Session-IsReading :
      (d : drv.Device) (s s' : Fs drv.Device) → IsReading d s → Session s s' → IsReading d s'
  Session-IsReading d s _ is (done _) = is
  Session-IsReading d s s' is (goes_on _ s1 _ step rest) =
      Session-IsReading d s1 s' (step-IsReading d s s1 step is) rest
