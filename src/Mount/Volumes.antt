-- ===== src/Mount/Volumes.antt =====
-- The volumes of a pod: `CreateMount`, `DeleteMount`, `createTmpfs` and `createEmptydir`.
pub mod Laws
use itzo.Base.{
  is_exist, is_not_exist, ℕ, ◌+◌, Bool, true, false, not, ◌&&◌, ◌||◌, Option, none, some, is_some,
  List, [], ◌∷◌, ◌++◌, if◌then◌else◌, Str, lit, Error, ◌⊎◌, inl, inr, String, ℤ, int_text,
}
use itzo.Api.{
  Volume, EmptyDir, StorageMedium, default, memory, HostPathType, unset, directory_or_create,
  directory, file_or_create, file, socket, char_dev, block_dev, PackagePath, HostPathVolumeSource,
}
use itzo.Io.{Io, Result, ok, err, panic, pure, raise, ◌>>=◌, ◌>>◌, attempt}
use itzo.Io.Os.{
  Os, FileInfo, Call, mkdir, mkdir_all, create, symlink, remove_all, mount, unmount, perform, stat,
  ms_bind, ms_rec, ms_shared, mnt_detach,
}
use itzo.Io.Paths.{join_path}

module _ {W : Type 0} (os : Os W) where
  unfoldable pub share_mount : Str → ℕ → Io W (Unit {0})
  unfolding lit perform
  share_mount target flags = perform os (mount (lit "none") target [] flags [])

  unfoldable pub create_tmpfs : Str → ℤ → Io W (Unit {0})
  unfolding lit perform int_text
  create_tmpfs dir size =
      perform os (mount (lit "tmpfs") dir (lit "tmpfs") 0 (lit "size=" ++ int_text size ++ lit "m"))

  unless : {A : Type 0} → (Error → Bool) → Error ⊎ A → Io W (Unit {0})
  unless allowed (inr _) = pure tt
  unless allowed (inl e) = if allowed e then pure tt else raise e

  unfoldable pub back_emptydir : Str → EmptyDir → StorageMedium → Io W (Unit {0})
  unfolding create_tmpfs
  back_emptydir dir empty_dir default = pure tt
  back_emptydir dir empty_dir memory = create_tmpfs dir empty_dir.size_limit
  back_emptydir dir empty_dir (StorageMedium.other medium) =
      raise (Error.errorf "Unknown medium %s in createEmptydir()" (medium ∷ []))

  unfoldable pub create_emptydir : Str → EmptyDir → Io W (Unit {0})
  unfolding perform unless is_exist share_mount back_emptydir
  create_emptydir dir empty_dir = do
    made ← attempt (perform os (mkdir dir 493))
    unless is_exist made
    perform os (mount dir dir [] (ms_bind + ms_rec) [])
    share_mount dir (ms_shared + ms_rec)
    back_emptydir dir empty_dir empty_dir.medium

  -- One test of a case of the `switch` on the type of a host path.
  refuse_if : Bool → String → Str → Io W (Unit {0})
  refuse_if true format path = raise (Error.errorf format (path ∷ []))
  refuse_if false format path = pure tt

  check_directory : Str → Io W (Unit {0})
  unfolding stat refuse_if
  check_directory path = do
    fi ← stat os path
    refuse_if (not fi.is_dir) "%s is not a directory" path

  create_if_missing : Str → Error ⊎ FileInfo → Io W (Unit {0})
  unfolding is_not_exist perform
  create_if_missing path (inr fi) = pure tt
  create_if_missing path (inl e) = if is_not_exist e then perform os (create path) else raise e

  check_file : Str → Io W (Unit {0})
  unfolding stat refuse_if
  check_file path = do fi ← stat os path; refuse_if fi.is_dir "%s is not a file" path

  unfoldable pub check_host_path : Str → HostPathType → Io W (Unit {0})
  unfolding check_directory check_file create_if_missing stat refuse_if perform
  check_host_path path unset = pure tt
  check_host_path path directory_or_create = do
    perform os (mkdir_all path 493)
    check_directory path
  check_host_path path directory = check_directory path
  check_host_path path file_or_create = do
    found ← attempt (stat os path)
    create_if_missing path found
    check_file path
  check_host_path path file = check_file path
  check_host_path path socket = do
    fi ← stat os path
    refuse_if fi.mode_socket "%s is not a socket" path
  check_host_path path char_dev = do
    fi ← stat os path
    refuse_if fi.mode_char_device "%s is not a chardev" path
  check_host_path path block_dev = do
    fi ← stat os path
    refuse_if (fi.mode_device && not fi.mode_char_device) "%s is not a blockdev" path
  check_host_path path (HostPathType.other name) =
      raise (Error.errorf "invalid HostPath type %v" (name ∷ []))

-- `PackagePath`, `Secret`, `ConfigMap` and `Projected` are all backed by a package.
unfoldable pub from_package : Volume → Bool
from_package volume =
    is_some volume.package_path
    || is_some volume.secret
    || is_some volume.config_map
    || is_some volume.projected

host_path_type_of : Option HostPathType → HostPathType
host_path_type_of none = unset
host_path_type_of (some t) = t

module _ {W : Type 0} (os : Os W) (volume_text : Volume → Str) (basedir : Str)
    (volume : Volume) where
  multiple : String → Io W (Unit {0})
  multiple format = raise (Error.errorf format (volume_text volume ∷ []))

  unfoldable pub packagepath : Str
  unfolding join_path lit
  packagepath =
      let dir = join_path (basedir ∷ lit ".." ∷ lit "packages" ∷ volume.name ∷ []) in
      elim volume.package_path [ none ↦ dir | some p ↦ join_path (dir ∷ p.path ∷ []) ]

  -- The three parts of `CreateMount`; `found` tells whether an earlier one did something.
  create_empty_dir : Str → Option EmptyDir → Io W (Unit {0})
  unfolding create_emptydir
  create_empty_dir mountpath none = pure tt
  create_empty_dir mountpath (some empty_dir) = create_emptydir os mountpath empty_dir

  link_package : Str → Io W (Unit {0})
  unfolding packagepath stat perform
  link_package mountpath = do fi ← stat os packagepath; perform os (symlink packagepath mountpath)

  add_package : Str → Bool → Bool → Io W (Unit {0})
  unfolding link_package multiple
  add_package mountpath found false = pure tt
  add_package mountpath true true = multiple "multiple volumes are specified in %v"
  add_package mountpath false true = link_package mountpath

  link_host_path : Str → HostPathVolumeSource → Io W (Unit {0})
  unfolding check_host_path host_path_type_of perform
  link_host_path mountpath source = do
    check_host_path os source.path (host_path_type_of source.host_path_type)
    perform os (symlink source.path mountpath)

  add_host_path : Str → Bool → Option HostPathVolumeSource → Io W (Unit {0})
  unfolding link_host_path multiple
  add_host_path mountpath found none = pure tt
  add_host_path mountpath true (some source) = multiple "multiple volumes are specified in %v"
  add_host_path mountpath false (some source) = link_host_path mountpath source

  finish : String → Bool → Io W (Unit {0})
  unfolding multiple
  finish format true = pure tt
  finish format false = multiple format

  unfoldable pub create_mount : Io W (Unit {0})
  unfolding join_path lit perform stat unless is_not_exist create_empty_dir add_package from_package
      add_host_path finish
  create_mount =
      let mountsdir = join_path (basedir ∷ lit "../mounts" ∷ []) in
      let mountpath = join_path (mountsdir ∷ volume.name ∷ []) in
      let empty = is_some volume.empty_dir in
      do
        perform os (mkdir_all mountsdir 448)
        present ← attempt (stat os mountpath)
        unless os is_not_exist present
        create_empty_dir mountpath volume.empty_dir
        add_package mountpath empty (from_package volume)
        add_host_path mountpath (empty || from_package volume) volume.host_path
        finish "no volume specified in %v"
            (empty || from_package volume || is_some volume.host_path)

  -- A medium that is none of the two is passed over.
  delete_medium : Str → StorageMedium → Io W (Unit {0})
  unfolding perform
  delete_medium mountpath default = perform os (remove_all mountpath)
  delete_medium mountpath memory = perform os (unmount mountpath mnt_detach)
  delete_medium mountpath (StorageMedium.other medium) = pure tt

  delete_empty_dir : Str → Option EmptyDir → Io W (Unit {0})
  unfolding delete_medium
  delete_empty_dir mountpath none = pure tt
  delete_empty_dir mountpath (some empty_dir) = delete_medium mountpath empty_dir.medium

  delete_link : Str → Bool → Bool → Io W (Unit {0})
  unfolding multiple perform
  delete_link mountpath found false = pure tt
  delete_link mountpath true true = multiple "Multiple volumes are specified in %v"
  delete_link mountpath false true = perform os (remove_all mountpath)

  -- The check of the mount path is only logged.
  unfoldable pub delete_mount : Io W (Unit {0})
  unfolding join_path lit delete_empty_dir delete_link from_package finish
  delete_mount =
      let mountpath = join_path (basedir ∷ lit ".." ∷ lit "mounts" ∷ volume.name ∷ []) in
      let empty = is_some volume.empty_dir in
      let linked = from_package volume || is_some volume.host_path in
      do
        delete_empty_dir mountpath volume.empty_dir
        delete_link mountpath empty linked
        finish "No volume specified in %v" (empty || linked)
