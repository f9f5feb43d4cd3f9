-- ===== src/Mount.antt =====
-- The mounts of units and the volumes of pods: pkg/mount/mount.go.
pub mod Special
pub mod Volumes
pub mod Links
pub mod Attach
mod Tests
use itzo.Base.{List, Str, ℕ}
use itzo.Api.{Volume}
use itzo.Io.{Io}
use itzo.Io.Os.{Os, Call, mount, unmount, pivot_root, perform, mnt_detach, ms_bind, ms_rec}
use itzo.Mount.Special.{mount_special, unmount_special}
use itzo.Mount.Volumes.{create_mount, delete_mount}
use itzo.Mount.Attach.{attach_mount, detach_mount, bind_mount}

-- The interface `Mounter`, over the state of the system.
pub record Mounter (W : Type 0) : Type 0 where
  pub create_mount : Volume → Io W (Unit {0})
  pub delete_mount : Volume → Io W (Unit {0})
  pub attach_mount : Str → Str → Str → Io W (Unit {0})
  pub detach_mount : Str → Str → Io W (Unit {0})
  pub mount_special : Str → Io W (Unit {0})
  pub unmount_special : Str → Io W (Unit {0})
  pub bind_mount : Str → Str → Io W (Unit {0})
  pub unmount : Str → Io W (Unit {0})
  pub pivot_root : Str → Str → Io W (Unit {0})

-- `OSMounter`, with its base directory. `volume_text` is how `fmt` prints a volume, and `depth` how
-- deep `resolveLinks` can call itself before the stack is full.
unfoldable pub os_mounter : {W : Type 0} → Os W → (Volume → Str) → ℕ → Str → Mounter W
os_mounter os volume_text depth basedir = record {
  create_mount = create_mount os volume_text basedir;
  delete_mount = delete_mount os volume_text basedir;
  attach_mount = attach_mount os depth basedir;
  detach_mount = detach_mount os depth basedir;
  mount_special = mount_special os basedir;
  unmount_special = unmount_special os basedir;
  bind_mount = bind_mount os;
  unmount = λ dir. perform os (Call.unmount dir mnt_detach);
  pivot_root = λ rootfs oldrootfs. perform os (Call.pivot_root rootfs oldrootfs);
}
