-- ===== src/Mount/Special.antt =====
-- The special file systems of a unit: `Mounts`, `MountSpecial` and `UnmountSpecial`.
pub mod Laws
use itzo.Base.{
  ℕ, ◌+◌, Option, none, some, List, [], ◌∷◌, ◌++◌, if◌then◌else◌, ◌==◌, str_eq, str_beq, Str, lit,
  Error,
}
use itzo.Io.{Io, Result, ok, err, panic, pure, ◌>>◌, for_each}
use itzo.Io.Os.{
  Os, mkdir_all, mount, unmount, perform, ms_nosuid, ms_nodev, ms_noexec, ms_relatime, mnt_detach,
}
use itzo.Io.Paths.{join_path}

pub record Mount : Type 0 where
  pub source : Str
  pub target : Str
  pub fs : Str
  pub flags : ℕ
  pub mount_data : Str

unfoldable pub mounts : List Mount
unfolding lit
mounts =
    record {
      source = lit "proc";
      target = lit "/proc";
      fs = lit "proc";
      flags = ms_nosuid + ms_nodev + ms_noexec + ms_relatime;
      mount_data = [];
    }
    ∷ record {
      source = lit "devtmpfs";
      target = lit "/dev";
      fs = lit "devtmpfs";
      flags = ms_nosuid + ms_relatime;
      mount_data = lit "mode=755";
    }
    ∷ record {
      source = lit "devpts";
      target = lit "/dev/pts";
      fs = lit "devpts";
      flags = ms_nosuid + ms_noexec + ms_relatime;
      mount_data = lit "mode=620,ptmxmode=000";
    }
    ∷ record {
      source = lit "sysfs";
      target = lit "/sys";
      fs = lit "sysfs";
      flags = ms_nosuid + ms_nodev + ms_noexec + ms_relatime;
      mount_data = [];
    }
    ∷ []

-- The root file system of a unit; without a name it is the agent's own.
unfoldable pub rootfs_of : Str → Str → Str
unfolding lit join_path str_beq
rootfs_of basedir unitname =
    if unitname == [] then lit "/" else join_path (basedir ∷ unitname ∷ lit "ROOTFS" ∷ [])

module _ {W : Type 0} (os : Os W) where
  -- The loop of `UnmountSpecial`, from the last mount to the first. An error is only logged.
  unfoldable pub unmount_all : Str → List Mount → W → W
  unmount_all rootfs [] w = w
  unmount_all rootfs (m ∷ ms) w =
      (os.call (unmount (join_path (rootfs ∷ m.target ∷ [])) mnt_detach)
        (unmount_all rootfs ms w)).1

  unfoldable pub unmount_special : Str → Str → Io W (Unit {0})
  unmount_special basedir unitname w = (ok tt, unmount_all (rootfs_of basedir unitname) mounts w)

  -- After a mount that failed, all of them are undone.
  unfoldable pub or_unmount : Str → Str → Result (Unit {0}) × W → Result (Unit {0}) × W
  or_unmount basedir unitname (ok a, w) = (ok a, w)
  or_unmount basedir unitname (panic, w) = (panic, w)
  or_unmount basedir unitname (err e, w) = (err e, (unmount_special basedir unitname w).1)

  unfoldable pub mount_one : Str → Str → Mount → Io W (Unit {0})
  mount_one basedir unitname m =
      let target = join_path (rootfs_of basedir unitname ∷ m.target ∷ []) in
      do
        perform os (mkdir_all target 448)
        λ w.
            or_unmount basedir unitname
              (perform os (mount m.source target m.fs m.flags m.mount_data) w)

  unfoldable pub mount_special : Str → Str → Io W (Unit {0})
  mount_special basedir unitname = for_each mounts (mount_one basedir unitname)
