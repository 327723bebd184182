-- ===== src/Mailbox/Files.antt =====
-- The calls of the operating system that mailbox/syncdir.go makes, and what it relies on of them.
use wl2k_go.Prelude.{ℕ, ◌≡◌, Bool, true, false, Option, some, List, Bytes}
use wl2k_go.Go.Strings.{bytes_eq}

-- An entry of `ioutil.ReadDir`, whose name is not empty.
pub record Entry : Type 0 where
  pub first : ℕ
  pub rest : Bytes
  pub is_dir : Bool

-- A file that was opened, with its bytes; `missing` is an error of which `os.IsNotExist` holds, and
-- `failed` any other.
pub data Opened : Type 0 where
  opened : Bytes → Opened
  missing failed : Opened

-- `ioutil.ReadDir`, `os.Open`, `ioutil.WriteFile`, `os.Rename` and `os.MkdirAll`, on the state of the
-- disk. The flag of an operation says that its error is nil.
pub record FileSystem (D : Type 0) : Type 0 where
  pub read_dir : Bytes → D → Option (List Entry)
  pub open_file : Bytes → D → Opened
  pub write_file : Bytes → Bytes → D → D × Bool
  pub rename : Bytes → Bytes → D → Option D
  pub mkdir_all : Bytes → D → D × Bool

-- A file that was written with no error is read back, and a write does not touch the other paths. A
-- rename with no error moves the file that could be read. Here two paths that differ as
-- texts name two files: there are no paths such as "./a", no symbolic and no hard links.
pub record IsFileSystem {D : Type 0} (fs : FileSystem D) : Type 0 where
  pub written :
      (p b : Bytes) (d : D)
      → (fs.write_file p b d).1 ≡ true
      → fs.open_file p (fs.write_file p b d).0 ≡ opened b
  pub write_kept :
      (p q b : Bytes) (d : D)
      → bytes_eq p q ≡ false
      → fs.open_file q (fs.write_file p b d).0 ≡ fs.open_file q d
  pub moved :
      (p q b : Bytes) (d d' : D)
      → fs.rename p q d ≡ some d'
      → fs.open_file p d ≡ opened b
      → fs.open_file q d' ≡ opened b
  pub gone :
      (p q b : Bytes) (d d' : D)
      → bytes_eq p q ≡ false
      → fs.rename p q d ≡ some d'
      → fs.open_file p d ≡ opened b
      → fs.open_file p d' ≡ missing
  pub rename_kept :
      (p q r : Bytes) (d d' : D)
      → bytes_eq p r ≡ false
      → bytes_eq q r ≡ false
      → fs.rename p q d ≡ some d'
      → fs.open_file r d' ≡ fs.open_file r d
