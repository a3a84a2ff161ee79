-- ===== src/Ext2/Seek/Target.antt =====
-- Where `ext2_lseek` moves the cursor.
use embext.Base.{ℕ, ltb, if◌then◌else◌, ◌==◌}
use embext.Base.{ℤ, pos, negsuc, to_int, minus_one}
use embext.Ext2.State.{FileEnt, Fs, u32, einval, eoverflow}
use embext.Ext2.Seek.{file, seek_set, seek_cur, seek_end, int64_max}

-- What the offset counts from.
abbrev pub base : FileEnt → ℕ → ℕ
base fe whence =
    if whence == seek_set then 0 else if whence == seek_cur then fe.cursor else fe.inode.i_size

-- The cursor behind a seek to byte `n`: from the end, `n` is taken modulo 2 to the 32nd.
abbrev pub sought : ℕ → ℕ → ℕ
sought whence n = if whence == seek_end then u32 n else n

abbrev pub seek_error : {Device : Type 0} → ℕ → Fs Device → Fs Device
seek_error e s = record s { errno = e }

abbrev pub moved : {Device : Type 0} → ℕ → Fs Device → Fs Device
moved n s = record s { file = record s.file { cursor = n } }

-- What a call with this target returns, and the state behind it.
abbrev pub seek_result : {Device : Type 0} → ℕ → Fs Device → ℤ → ℤ × Fs Device
seek_result whence s (negsuc k) = (minus_one, seek_error einval s)
seek_result whence s (pos n) =
    if ltb int64_max n
    then (minus_one, seek_error eoverflow s)
    else (to_int (sought whence n), moved (sought whence n) s)
