-- ===== src/Io/Os.antt =====
-- The operating system, as the modelled files reach it: packages os and syscall.
pub mod Laws
pub mod Does
use itzo.Base.{ℕ, ◌+◌, Bool, Option, List, [], ◌∷◌, ◌++◌, Str, Error, ◌⊎◌}
use itzo.Io.{Io, check, of_sum}

-- `os.FileInfo`: of the mode, the bits that the source tests.
pub record FileInfo : Type 0 where
  pub is_dir : Bool
  pub mode_symlink : Bool
  pub mode_socket : Bool
  pub mode_device : Bool
  pub mode_char_device : Bool

-- The calls that change the system, with Go's arguments in their order. `create` closes the file
-- that it makes, `write_file` is `ioutil.WriteFile`, `copy` is `io.Copy` into a file that is there,
-- with the target first, and `sysctl` sets a kernel parameter.
pub data Call : Type 0 where
  mkdir : Str → ℕ → Call
  mkdir_all : Str → ℕ → Call
  create : Str → Call
  symlink : Str → Str → Call
  remove : Str → Call
  remove_all : Str → Call
  mkfifo : Str → ℕ → Call
  write_file : Str → Str → ℕ → Call
  copy : Str → Str → Call
  chown : Str → ℕ → ℕ → Call
  chmod : Str → ℕ → Call
  mount : Str → Str → Str → ℕ → Str → Call
  unmount : Str → ℕ → Call
  pivot_root : Str → Str → Call
  chdir : Str → Call
  sethostname : Str → Call
  setenv : Str → Str → Call
  sysctl : Str → Str → Call
  link : Str → Str → Call
  lchown : Str → ℕ → ℕ → Call

-- `open_file` opens and closes a file to read it, and `open_writer` one to write it without waiting.
pub record Os (W : Type 0) : Type 0 where
  pub call : Call → W → Option Error × W
  pub stat : Str → W → Error ⊎ FileInfo
  pub lstat : Str → W → Error ⊎ FileInfo
  pub readlink : Str → W → Error ⊎ Str
  pub read_file : Str → W → Error ⊎ Str
  pub open_file : Str → W → Option Error
  pub open_writer : Str → W → Option Error

module _ {W : Type 0} (os : Os W) where
  unfoldable pub perform : Call → Io W (Unit {0})
  perform c w = let r = os.call c w in check r.0 r.1

  unfoldable pub stat : Str → Io W FileInfo
  stat path w = of_sum (os.stat path w) w

  unfoldable pub lstat : Str → Io W FileInfo
  lstat path w = of_sum (os.lstat path w) w

  unfoldable pub readlink : Str → Io W Str
  readlink path w = of_sum (os.readlink path w) w

-- Any system, with a record of the calls that it got, the oldest first.
abbrev pub traced : {W : Type 0} → Os W → Os (W × List Call)
traced os = record {
  call = λ c w. let r = os.call c w.0 in (r.0, (r.1, w.1 ++ c ∷ []));
  stat = λ path w. os.stat path w.0;
  lstat = λ path w. os.lstat path w.0;
  readlink = λ path w. os.readlink path w.0;
  read_file = λ path w. os.read_file path w.0;
  open_file = λ path w. os.open_file path w.0;
  open_writer = λ path w. os.open_writer path w.0;
}

-- Flags of package syscall.
abbrev pub ms_nosuid : ℕ
ms_nosuid = 2

abbrev pub ms_nodev : ℕ
ms_nodev = 4

abbrev pub ms_noexec : ℕ
ms_noexec = 8

abbrev pub ms_bind : ℕ
ms_bind = 4096

abbrev pub ms_rec : ℕ
ms_rec = 16384

abbrev pub ms_private : ℕ
ms_private = 262144

abbrev pub ms_shared : ℕ
ms_shared = 1048576

abbrev pub ms_relatime : ℕ
ms_relatime = 2097152

abbrev pub mnt_detach : ℕ
mnt_detach = 2
