-- ===== src/Mount/Tests.antt =====
-- Runs of the mounter on a small system, and the theorems at them.
use itzo.Base.{
  ℕ, zero, suc, ◌≡◌, refl, sym, ap, true, false, ◌⊎◌, inl, inr, none, some, [], ◌∷◌, Str, lit,
  Error, pos, is_some, Option, int_text, ◌==◌, str_eq, str_beq, if◌then◌else◌,
}
use itzo.Api.{Volume, StorageMedium, HostPathType}
use itzo.Io.{ok}
use itzo.Io.Os.{Os, Call, FileInfo, traced}
use itzo.Io.Paths.{join_path, parts_of, is_rooted}
use itzo.Mount.Special.{mounts, mount_special}
use itzo.Mount.Special.Laws.{LoopEnds, mount_special-calls}
use itzo.Mount.Volumes.{create_mount, delete_mount, check_host_path, from_package}
use itzo.Mount.Volumes.Laws.{exactly_one, create_mount_lem, delete_mount-create_mount}
use itzo.Mount.Links.{resolve_links}
use itzo.Mount.Links.Laws.{Unresolved, resolve_links-Unresolved}
use itzo.Mount.Attach.{attach_mount, unit_base, mount_source}
use itzo.Mount.Attach.Laws.{Mounted, attach_mount-calls}

abbrev dir_info : FileInfo
dir_info = record {
  is_dir = true;
  mode_symlink = false;
  mode_socket = false;
  mode_device = false;
  mode_char_device = false;
}

count_down : Call → ℕ → Option Error × ℕ
count_down c zero = (some (Error.foreign 5), 0)
count_down c (suc n) = (none, n)

link_at : Str → Error ⊎ FileInfo
unfolding lit str_beq
link_at path =
    if path == lit "/b/u/ROOTFS/l"
    then inr (record dir_info { is_dir = false; mode_symlink = true })
    else inr dir_info

-- A system on which as many calls as the state says succeed, and `/b/u/ROOTFS/l` is a relative link.
abbrev small_os : Os ℕ
small_os = record {
  call = count_down;
  stat = λ path w. inr dir_info;
  lstat = λ path w. link_at path;
  readlink = λ path w. inr (lit "../x");
  read_file = λ path w. inl Error.not_exist;
  open_file = λ path w. none;
  open_writer = λ path w. none;
}

-- One on which every call succeeds.
abbrev good_os : Os (Unit {0})
good_os = record {
  call = λ c w. (none, tt);
  stat = λ path w. inr dir_info;
  lstat = λ path w. inr dir_info;
  readlink = λ path w. inr (lit "x");
  read_file = λ path w. inl Error.not_exist;
  open_file = λ path w. none;
  open_writer = λ path w. none;
}

abbrev scratch : Volume
scratch = record {
  name = lit "scratch";
  empty_dir = some (record { medium = StorageMedium.memory; size_limit = pos 512 });
  package_path = none;
  config_map = none;
  secret = none;
  host_path = none;
  projected = none;
}

abbrev text_of : Volume → Str
text_of v = v.name

test_join_up : join_path (lit "/tmp/units" ∷ lit "../mounts" ∷ []) ≡ lit "/tmp/mounts"
unfolding join_path str_beq lit
test_join_up = refl

test_join_empty : join_path ([] ∷ lit "a/../../b/." ∷ []) ≡ lit "../b"
unfolding join_path str_beq lit
test_join_empty = refl

test_int_text : int_text (pos 512) ≡ lit "512"
unfolding int_text lit
test_int_text = refl

mount_special-calls_example :
    LoopEnds small_os
      (lit "/b")
      (lit "u")
      mounts
      (mount_special (traced small_os) (lit "/b") (lit "u") (3, []))
      []
mount_special-calls_example = mount_special-calls small_os (lit "/b") (lit "u") (3, [])

created : (create_mount small_os text_of (lit "/b") scratch 5).0 ≡ ok tt
unfolding create_mount count_down
created = refl

create_mount_lem_example :
    exactly_one (is_some scratch.empty_dir) (from_package scratch) (is_some scratch.host_path)
    ≡ true
create_mount_lem_example = create_mount_lem small_os text_of (lit "/b") scratch 5 created

dir_ok : (check_host_path small_os (lit "/d") HostPathType.directory 1).0 ≡ ok tt
unfolding check_host_path
dir_ok = refl

delete_mount-create_mount_example : (delete_mount good_os text_of (lit "/b") scratch tt).0 ≡ ok tt
delete_mount-create_mount_example =
    delete_mount-create_mount good_os text_of (lit "/b") scratch (λ c w. refl) small_os 5 tt created

only_relative :
    (path dst : Str) (v : ℕ) → small_os.readlink path v ≡ inr dst → is_rooted dst ≡ false
unfolding is_rooted lit
only_relative path dst v h =
    sym (ap (λ (r : Error ⊎ Str). elim r [ inl _ ↦ false | inr d ↦ is_rooted d ]) h)

resolve_links-Unresolved_example :
    Unresolved small_os
      (lit "/b/u/ROOTFS")
      (lit "/l/d")
      (parts_of (lit "/l/d"))
      (resolve_links small_os 1 (lit "/b/u/ROOTFS") (lit "/l/d") 0).0
resolve_links-Unresolved_example =
    resolve_links-Unresolved small_os 0 (lit "/b/u/ROOTFS") (lit "/l/d") 0 only_relative

attach_mount-calls_example :
    Mounted small_os
      (unit_base (lit "/b") (lit "u"))
      (mount_source (lit "/b") (lit "scratch"))
      (lit "/data")
      (resolve_links (traced small_os) 1 (unit_base (lit "/b") (lit "u")) (lit "/data") (2, [])).0
      (2, [])
      (attach_mount (traced small_os) 1 (lit "/b") (lit "u") (lit "scratch") (lit "/data") (2, []))
attach_mount-calls_example =
    attach_mount-calls small_os 1 (lit "/b") (lit "u") (lit "scratch") (lit "/data") (2, [])

data_target :
    (resolve_links (traced small_os) 1 (unit_base (lit "/b") (lit "u")) (lit "/data") (1, [])).0
    ≡ ok (lit "/b/u/ROOTFS/data")
unfolding resolve_links unit_base join_path lit str_beq link_at
data_target = refl
