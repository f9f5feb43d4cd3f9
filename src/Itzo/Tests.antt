-- ===== src/Itzo/Tests.antt =====
-- The itzo runtime with small services, and its theorems at them.
use itzo.Base.{
  ◌≡◌, refl, true, false, none, some, List, [], ◌∷◌, ◌++◌, Str, lit, Error, inl, inr, length, All,
  str_beq, has_prefix,
}
use itzo.Api.{UnitSpec, UnitStatus}
use itzo.Io.{ok, is_panic}
use itzo.Controller.Samples.{controller, web, setup, spec_of, old_spec}
use itzo.Controller.Status.{get_status}
use itzo.Controller.Status.Laws.{ReportsCompletion}
use itzo.Controller.Update.{begin_sync}
use itzo.Itzo.Interfaces.{Services, UnitPackage}
use itzo.Itzo.{ItzoRuntime, itzo_runtime, remove_pod_sandbox}
use itzo.Itzo.Pull.{server_url}
use itzo.Itzo.Laws.{begin_sync-itzo_runtime, get_status-itzo_runtime}
use itzo.Itzo.Removal.{traced, removal, all_events, Happened, remove_pod_sandbox-events}

-- Images cannot be pulled, and everything else goes well.
abbrev offline : Services (Unit {0})
offline = record {
  start_unit = λ pod host unit dir ns command args env policy w. (none, w);
  stop_unit = λ unit w. (some (Error.foreign 1), w);
  remove_unit = λ unit w. (none, w);
  unit_running = λ unit w. false;
  get_pid = λ unit w. none;
  create_mount = λ volume w. (none, w);
  delete_mount = λ volume w. (none, w);
  attach_mount = λ unit src dst w. (none, w);
  detach_mount = λ unit dst w. (none, w);
  pull_image = λ rootdir unit image creds overlay w. (some (Error.foreign 2), w);
}

abbrev no_units : {W : Type 0} → UnitPackage W (Unit {0})
no_units = record {
  is_unit_exist = λ rootdir name w. true;
  open_unit = λ rootdir name w. (inr tt, w);
  get_status = λ u w. inl (Error.foreign 3);
  save_unit_config = λ u config w. (none, w);
  set_unit_config_overlayfs = λ b u. u;
  pull_and_extract_image = λ u image server username password w. (none, w);
}

abbrev text_of : Error → Str
text_of e = []

abbrev fresh : {W : Type 0} → W → ItzoRuntime W
fresh w = record { world = w; net_ns = []; pod_ip = [] }

abbrev mounted : UnitSpec
mounted = record web {
  volume_mounts = record { name = lit "v"; mount_path = lit "/v"; sub_path = [] } ∷ [];
}

test_docker : server_url (lit "docker.io") ≡ lit "https://registry-1.docker.io"
unfolding server_url lit str_beq has_prefix
test_docker = refl

test_own_scheme : server_url (lit "http://r.io") ≡ lit "http://r.io"
unfolding server_url lit str_beq has_prefix
test_own_scheme = refl

begin_sync-itzo_runtime_example :
    is_panic
      (begin_sync
        (itzo_runtime offline no_units text_of [])
        (spec_of [] [])
        []
        (controller (fresh tt) old_spec)).0
    ≡ false
begin_sync-itzo_runtime_example =
    begin_sync-itzo_runtime offline no_units text_of [] (spec_of [] []) []
      (controller (fresh tt) old_spec)

get_status-itzo_runtime_example :
    (statuses : List UnitStatus) × (inits : List UnitStatus) × ((get_status
        (itzo_runtime offline no_units text_of [])
        (controller (fresh tt) old_spec)).0
      ≡ ok (statuses, inits))
    × (length statuses ≡ 1)
    × (length inits ≡ 1)
    × All ReportsCompletion inits
get_status-itzo_runtime_example =
    get_status-itzo_runtime offline no_units text_of [] (controller (fresh tt) old_spec)

remove_pod_sandbox-events_example :
    Happened
      (all_events removal (setup ∷ web ∷ []) ++ [])
      (
        (remove_pod_sandbox (traced offline) no_units text_of [] (fresh (tt, [])) old_spec).0,
        (remove_pod_sandbox (traced offline) no_units text_of [] (fresh (tt, [])) old_spec).1.world,
      )
      []
remove_pod_sandbox-events_example =
    remove_pod_sandbox-events offline no_units text_of [] (fresh (tt, [])) old_spec
