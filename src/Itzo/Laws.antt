-- ===== src/Itzo/Laws.antt =====
-- What the runtime promises to the controller, and what the controller then does.
use itzo.Base.{
  ◌≡◌, ◌≢◌, refl, Bool, false, Option, none, some, List, [], ◌∷◌, Str, Map, Error, ◌⊎◌, inl, inr,
  arith, length, All,
}
use itzo.Api.{UnitSpec, PodSpec, UnitStatus, RegistryCredentials, VolumeMount}
use itzo.Io.{ok, is_panic}
use itzo.Controller.Runtime.{Reply}
use itzo.Controller.State.{PodController}
use itzo.Controller.Update.{begin_sync}
use itzo.Controller.Update.Panics.{Explained, begin_sync-NoPanic}
use itzo.Controller.Status.{get_status}
use itzo.Controller.Status.Laws.{get_status_total, ReportsCompletion}
use itzo.Itzo.Interfaces.{Services, UnitPackage}
use itzo.Itzo.{
  ItzoRuntime, itzo_runtime, create_container, create_pulled, create_saved, attach_all,
  save_unit_config, container_status, opened_status, failed_reply, no_reply,
}

-- No error and no status, or an error and a status that says that this update of the unit failed.
abbrev Paired : UnitSpec → Reply → Type 0
Paired unit r = (r ≡ no_reply) ⊎ ((msg : Str) × (e : Error) × (r ≡ failed_reply unit msg e))

module _ {W U : Type 0} (services : Services W) (units : UnitPackage W U) (error_text : Error → Str)
    (rootdir : Str) where
  attach_all-Paired :
      (unit : UnitSpec) (ms : List VolumeMount) (w : W)
      → Paired unit (attach_all services units error_text rootdir unit ms w).0
  unfolding attach_all
  attach_all-Paired unit [] w = inl refl
  attach_all-Paired unit (m ∷ ms) w =
      next (services.attach_mount unit.name m.name m.mount_path w).0
        (attach_all services units error_text rootdir unit ms
          (services.attach_mount unit.name m.name m.mount_path w).1)
        _ _ (attach_all-Paired unit ms (services.attach_mount unit.name m.name m.mount_path w).1)
    where
      next :
          (o : Option Error) (rest : Reply × W) (msg : Error → Str) (w' : W)
          → Paired unit rest.0
          → (let r : Reply × W = elim o [
            | none ↦ rest
            | some e ↦ (failed_reply unit (msg e) e, w')
          ] in
              Paired unit r.0)
      next none rest msg w' h = h
      next (some e) rest msg w' h = inr (msg e, e, refl)

  -- `CreateContainer` answers either with neither an error nor a status, or with an error and a
  -- status of this unit and image that reports a failed start.
  create_container-Paired :
      (i : ItzoRuntime W) (unit : UnitSpec) (spec : PodSpec) (pod_name : Str)
      (creds : Map RegistryCredentials) (overlay : Bool)
      → Paired unit
          (create_container services units error_text rootdir i unit spec pod_name creds overlay).0
  unfolding create_container create_pulled create_saved
  create_container-Paired i unit spec pod_name creds overlay =
      pulled (services.pull_image rootdir unit.name unit.image creds overlay i.world)
    where
      saved :
          (r : Option Error × W)
          → Paired unit (create_saved services units error_text rootdir unit r).0
      saved (none, w) = attach_all-Paired unit unit.volume_mounts w
      saved (some e, w) = inr (_, e, refl)

      pulled :
          (r : Option Error × W)
          → Paired unit (create_pulled services units error_text rootdir i.pod_ip unit spec r).0
      pulled (none, w) =
          saved (
            save_unit_config services units error_text rootdir i.pod_ip unit spec.security_context
              w)
      pulled (some e, w) = inr (_, e, refl)

  Paired-Explained : (unit : UnitSpec) (r : Reply) → Paired unit r → Explained r
  Paired-Explained unit r (inl h) e k = λ q. ground arith
  Paired-Explained unit r (inr (msg, e', h)) e k = λ q. ground arith

  -- On this runtime the synchronous part of an update of the controller never panics, whatever its
  -- services answer.
  pub begin_sync-itzo_runtime :
      (status : PodSpec) (creds : Map RegistryCredentials) (pc : PodController (ItzoRuntime W))
      → is_panic (begin_sync (itzo_runtime services units error_text rootdir) status creds pc).0
        ≡ false
  begin_sync-itzo_runtime =
      begin_sync-NoPanic (itzo_runtime services units error_text rootdir)
        (λ i unit spec pod_name creds overlay.
          Paired-Explained unit _ (create_container-Paired i unit spec pod_name creds overlay))

  opened_status-some :
      (name image : Str) (opened : (Error ⊎ U) × W)
      → (opened_status services units error_text rootdir name image opened).status ≢ none
  unfolding opened_status
  opened_status-some name image (inl e, w) = λ q. cc
  opened_status-some name image (inr u, w) = λ q. ground arith

  container_status-some :
      (i : ItzoRuntime W) (name image : Str)
      → (container_status services units error_text rootdir i name image).0.status ≢ none
  unfolding container_status
  container_status-some i name image =
      let k = opened_status-some name image (units.open_unit rootdir name i.world) in
      λ q. ground arith

  -- On this runtime `GetStatus` of the controller always returns, with one status for each unit and
  -- for each init unit of the pod, and every init unit that exited with code 0 is reported as ready.
  pub get_status-itzo_runtime :
      (pc : PodController (ItzoRuntime W))
      → (statuses : List UnitStatus) × (inits : List UnitStatus) × ((get_status
            (itzo_runtime services units error_text rootdir)
            pc).0
          ≡ ok (statuses, inits))
        × (length statuses ≡ length pc.pod_status.units)
        × (length inits ≡ length pc.pod_status.init_units)
        × All ReportsCompletion inits
  get_status-itzo_runtime pc =
      get_status_total (itzo_runtime services units error_text rootdir) pc container_status-some
