-- ===== src/UnitDir.antt =====
-- A unit as a directory with its files: the part of pkg/unit/unit.go that opens, fills and removes
-- it.
pub mod Pipes
pub mod Pull
pub mod Samples
mod Tests
use itzo.Base.{
  ℕ, Bool, true, false, ◌&&◌, ◌||◌, not, Option, none, some, List, [], ◌∷◌, ◌++◌, if◌then◌else◌,
  ◌==◌, str_eq, str_beq, Str, lit, Error, is_exist, is_not_exist, ◌⊎◌, inl, inr, is_some,
}
use itzo.Api.{UnitStatus}
use itzo.Io.{Io, Result, ok, pure, raise, attempt, ignore, wrap, of_sum, check, ◌>>=◌, ◌>>◌}
use itzo.Io.Os.{
  Os, FileInfo, mkdir_all, mkfifo, create, copy, remove_all, write_file, unmount, mnt_detach,
  perform,
}
use itzo.Io.Paths.{join_path, dir_of}
use itzo.RunUnit.State.{
  Files, StatusFile, missing, unreadable, text, Config, UnitConfig, RunnableUnit, no_unit_config,
}
use itzo.RunUnit.Status.{get_status}
use itzo.UnitDir.Pipes.{LogPipe, new_log_pipe, remove_pipes}

-- encoding/json at a type. What is decoded before an error is kept.
pub record Codec (A : Type 0) : Type 0 where
  pub marshal : A → Error ⊎ Str
  pub unmarshal : Str → Option Error × A

pub record Codecs : Type 0 where
  pub status : Files
  pub config : Codec Config
  pub unit_config : Codec UnitConfig

-- `Unit` with the paths of its files.
pub record OpenedUnit : Type 0 where
  pub log_pipe : LogPipe
  pub directory : Str
  pub status_path : Str
  pub stdin_path : Str
  pub unit : RunnableUnit

unfoldable pub get_rootfs : OpenedUnit → Str
unfolding join_path lit
get_rootfs u = join_path (u.directory ∷ lit "ROOTFS" ∷ [])

-- `SetUnitConfigOverlayfs`, in memory only.
unfoldable pub set_unit_config_overlayfs : Bool → OpenedUnit → OpenedUnit
set_unit_config_overlayfs b u = record u {
  unit = record u.unit { unit_config = record u.unit.unit_config { use_overlayfs = b } };
}

unfoldable pub status_file_of : Error ⊎ Str → StatusFile
unfolding is_not_exist
status_file_of (inl e) = if is_not_exist e then missing else unreadable e
status_file_of (inr t) = text t

-- `getConfig`, where an error stands for no configuration.
config_of : Option Error × Config → Option Config
config_of (none, config) = some config
config_of (some e, config) = none

module _ {W : Type 0} (os : Os W) where
  unfoldable pub is_unit_exist : Str → Str → W → Bool
  unfolding join_path str_beq
  is_unit_exist rootdir name w =
      not (name == []) && not (is_some (os.open_file (join_path (rootdir ∷ name ∷ [])) w))

  abbrev status_file : Str → W → StatusFile
  status_file path w = status_file_of (os.read_file path w)

  module _ (codecs : Codecs) where
    unfoldable pub get_config : Str → W → Option Config
    unfolding join_path lit config_of
    get_config directory w = elim (os.read_file (join_path (directory ∷ lit "config" ∷ [])) w) [
      | inl e ↦ none
      | inr t ↦ config_of (codecs.config.unmarshal t)
    ]

    unfoldable pub get_unit_config : Str → W → Option Error × UnitConfig
    get_unit_config directory w =
        elim (os.read_file (join_path (directory ∷ lit "unitConfig" ∷ [])) w) [
          | inl e ↦ (some e, no_unit_config)
          | inr t ↦ codecs.unit_config.unmarshal t
        ]

    unfoldable pub save_unit_config : Str → UnitConfig → Io W (Unit {0})
    unfolding perform
    save_unit_config directory unit_config = do
      buf ← of_sum (codecs.unit_config.marshal unit_config)
      perform os (write_file (join_path (directory ∷ lit "unitConfig" ∷ [])) buf 493)

    -- The image that the status file tells, once everything else is there.
    image_of : Error ⊎ UnitStatus → Str
    image_of (inl e) = []
    image_of (inr s) = s.image

    read_unit : Str → Str → W → RunnableUnit
    unfolding get_config get_unit_config image_of join_path lit status_file_of
    read_unit directory name w =
        let u : RunnableUnit = record {
          name = name;
          image = [];
          config = get_config directory w;
          unit_config = (get_unit_config directory w).1;
        } in
        record u {
          image = image_of (
              get_status codecs.status u
                (status_file (join_path (directory ∷ lit "status" ∷ [])) w));
        }

    made_stdin : LogPipe → Error ⊎ Unit {0} → Io W (Unit {0})
    unfolding is_exist remove_pipes
    made_stdin lp (inr _) = pure tt
    made_stdin lp (inl e) = if is_exist e then pure tt else (do remove_pipes os lp; raise e)

    unfoldable pub open_unit : Str → Str → Io W OpenedUnit
    unfolding join_path lit perform new_log_pipe made_stdin read_unit
    open_unit rootdir name =
        let directory = join_path (rootdir ∷ name ∷ []) in
        let stdin_path = join_path (directory ∷ lit "unit-stdin" ∷ []) in
        do
          perform os (mkdir_all directory 448)
          lp ← new_log_pipe os directory
          made ← attempt (perform os (mkfifo stdin_path 384))
          made_stdin lp made
          λ w.
              pure
                (record {
                  log_pipe = lp;
                  directory = directory;
                  status_path = join_path (directory ∷ lit "status" ∷ []);
                  stdin_path = stdin_path;
                  unit = read_unit directory name w;
                })
                w

    -- `SetImage`; the unit has its new image after an error too.
    unfoldable pub set_image : Str → OpenedUnit → Io W (Unit {0})
    unfolding perform status_file_of
    set_image image u w =
        (do
          status ← of_sum (
              get_status codecs.status (record u.unit { image = image })
                (status_file u.status_path w))
          buf ← of_sum (codecs.status.marshal (record status { image = image }))
          perform os (write_file u.status_path buf 384))
          w

  -- `util.CopyFile`
  unfoldable pub copy_file : Str → Str → Io W (Unit {0})
  unfolding perform
  copy_file src dst = do
    λ w. check (os.open_file src w) w
    perform os (create dst)
    perform os (copy dst src)

  is_missing : Error ⊎ FileInfo → Bool
  unfolding is_not_exist
  is_missing (inl e) = is_not_exist e
  is_missing (inr fi) = false

  make_missing : Str → W → Io W (Unit {0})
  unfolding is_missing perform
  make_missing dir now =
      if is_missing (os.stat dir now) then perform os (mkdir_all dir 493) else pure tt

  copy_missing : Str → Str → Bool → W → Io W (Unit {0})
  unfolding is_missing copy_file
  copy_missing src dst overwrite now =
      if is_missing (os.stat dst now) || overwrite then copy_file src dst else pure tt

  unfoldable pub copy_file_from_host : OpenedUnit → Str → Bool → Io W (Unit {0})
  unfolding get_rootfs join_path dir_of make_missing copy_missing
  copy_file_from_host u hostpath overwrite = do
    λ w. make_missing (join_path (get_rootfs u ∷ dir_of hostpath ∷ [])) w w
    λ w. copy_missing hostpath (join_path (get_rootfs u ∷ hostpath ∷ [])) overwrite w w

  -- `Destroy`, of a unit whose stdin nobody reads.
  unfoldable pub destroy : OpenedUnit → Io W (Unit {0})
  unfolding get_rootfs perform remove_pipes
  destroy u = do
    ignore (perform os (unmount (get_rootfs u) mnt_detach))
    remove_pipes os u.log_pipe
    perform os (remove_all u.directory)
