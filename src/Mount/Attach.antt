-- ===== src/Mount/Attach.antt =====
-- Mounts of volumes into units: `AttachMount`, `DetachMount` and `BindMount`.
pub mod Laws
use itzo.Base.{
  ℕ, ◌+◌, Bool, true, false, not, List, [], ◌∷◌, if◌then◌else◌, ◌==◌, str_eq, str_beq, Str, lit,
  Error, has_prefix,
}
use itzo.Io.{Io, pure, raise, ◌>>=◌, ◌>>◌}
use itzo.Io.Os.{
  Os, FileInfo, mkdir_all, create, mount, unmount, perform, stat, ms_bind, ms_rec, ms_shared,
  mnt_detach,
}
use itzo.Io.Paths.{join_path, clean}
use itzo.Mount.Volumes.{share_mount}
use itzo.Mount.Links.{resolve_links}

unfoldable pub unit_base : Str → Str → Str
unfolding join_path lit
unit_base basedir unit = join_path (basedir ∷ unit ∷ lit "ROOTFS" ∷ [])

unfoldable pub mount_source : Str → Str → Str
unfolding join_path lit
mount_source basedir src = join_path (basedir ∷ lit "../mounts" ∷ src ∷ [])

-- The directory that has to exist: the target, or its parent for a file.
unfoldable pub target_dir : Bool → Str → Str
unfolding clean join_path lit
target_dir true target = clean target
target_dir false target = clean (join_path (target ∷ lit ".." ∷ []))

module _ {W : Type 0} (os : Os W) where
  check_inside : Str → Str → Str → Io W (Unit {0})
  unfolding has_prefix
  check_inside dst dir base =
      if has_prefix dir base
      then pure tt
      else raise (Error.errorf "Invalid mount target %s (%s is not in %s)" (dst ∷ dir ∷ base ∷ []))

  create_file : Str → Str → Io W (Unit {0})
  unfolding perform str_beq
  create_file dir target = if dir == target then pure tt else perform os (create target)

  -- From the resolved target and the directory on.
  unfoldable pub attach_at : Str → Str → Str → Str → Str → Io W (Unit {0})
  unfolding check_inside create_file
  attach_at base source dst target dir = do
    check_inside dst dir base
    perform os (mkdir_all dir 493)
    create_file dir target
    perform os (mount source target [] (ms_bind + ms_rec) [])
    share_mount os target (ms_shared + ms_rec)

  unfoldable pub attach_mount : ℕ → Str → Str → Str → Str → Io W (Unit {0})
  unfolding mount_source unit_base stat
  attach_mount depth basedir unit src dst =
      let source = mount_source basedir src in
      let base = unit_base basedir unit in
      do
        target ← resolve_links os depth base dst
        fi ← stat os source
        attach_at base source dst target (target_dir fi.is_dir target)

  unfoldable pub detach_mount : ℕ → Str → Str → Str → Io W (Unit {0})
  unfolding unit_base perform
  detach_mount depth basedir unit dst = do
    target ← resolve_links os depth (unit_base basedir unit) dst
    perform os (unmount target mnt_detach)

  unfoldable pub bind_mount : Str → Str → Io W (Unit {0})
  unfolding perform
  bind_mount src dst = perform os (mount src dst [] (ms_bind + ms_rec) [])
