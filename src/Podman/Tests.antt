-- ===== src/Podman/Tests.antt =====
-- The podman runtime on a unit with a mount, before a podman that refuses every creation.
use itzo.Base.{
  List, ◌≡◌, refl, true, false, Option, none, some, [], ◌∷◌, all, not, is_zero, lit, pos, Error,
  inl, inr, ◌⊎◌,
}
use itzo.Api.{UnitSpec, PodSpec, ContainerPort, UnitStatus}
use itzo.Controller.Samples.{web, old_spec}
use itzo.UnitDir.Samples.{empty_disk}
use itzo.Podman.{Client, pull_image, create_container}
use itzo.Podman.Convert.{PortMapping, milpa_to_k8s_volume, unit_ports_to_podman_port_mapping}
use itzo.Podman.Laws.{
  AllMapped, create_container-reply, create_container-unread, unit_ports_to_podman_port_mapping_lem,
}

abbrev refused : Unit {0} → Option Error × Unit {0}
refused w = (some (Error.foreign 1), w)

abbrev client : Client (Unit {0})
client = record {
  create_pod = λ spec w. refused w;
  stop_pod = λ name w. (none, none, w);
  remove_pod = λ name w. (none, none, w);
  image_exists = λ image w. inr true;
  pull = λ image creds w. (none, w);
  create_container = λ spec w. refused w;
  start = λ name w. refused w;
  stop = λ name w. (none, w);
  remove = λ name w. (none, w);
  inspect = λ name w. (
    some (record {
      state = some (record {
        running = true;
        dead = false;
        status = lit "running";
        error = [];
        exit_code = pos 0;
        started_at = 7;
        finished_at = 0;
      });
      image = lit "nginx";
    }),
    none,
  );
}

abbrev mounted : UnitSpec
mounted = record web {
  volume_mounts = record { name = lit "v"; mount_path = lit "/v"; sub_path = lit "in" } ∷ [];
}

abbrev with_volume : PodSpec
with_volume = record old_spec {
  volumes =
      record {
        name = lit "v";
        empty_dir = none;
        package_path = some (record { path = lit "p" });
        config_map = none;
        secret = none;
        host_path = none;
        projected = none;
      }
      ∷ [];
}

abbrev bare_volume : PodSpec
bare_volume = record old_spec {
  volumes =
      record {
        name = lit "v";
        empty_dir = none;
        package_path = none;
        config_map = none;
        secret = none;
        host_path = none;
        projected = none;
      }
      ∷ [];
}

-- A volume without a source is a nil pointer.
create_container-bare : (create_container empty_disk client mounted bare_volume [] tt).0 ≡ none
unfolding create_container milpa_to_k8s_volume lit
create_container-bare = refl

create_container-reply_example :
    (status : UnitStatus) × ((create_container empty_disk client mounted with_volume [] tt).0
      ≡ some (record {
        status = some status;
        err = (pull_image empty_disk client mounted.image [] tt).0;
      }))
create_container-reply_example =
    create_container-reply empty_disk client mounted with_volume [] tt (refl, tt)

create_container-unread_example :
    create_container empty_disk client
      (record mounted {
        args = lit "-v" ∷ [];
        working_dir = lit "/tmp";
        security_context = none;
        volume_mounts =
            record { name = lit "v"; mount_path = lit "/v"; sub_path = lit "other" } ∷ [];
      })
      with_volume
      []
      tt
    ≡ create_container empty_disk client mounted with_volume [] tt
create_container-unread_example =
    create_container-unread empty_disk client mounted with_volume [] tt (lit "-v" ∷ []) (lit "/tmp")
      none (λ m. lit "other")

abbrev port : ContainerPort
port = record {
  name = [];
  host_port = pos 0;
  container_port = pos 65616;
  protocol = lit "TCP";
  host_ip = [];
}

unit_ports_to_podman_port_mapping_lem_example :
    ((all (λ p. not (is_zero p.container_port)) (port ∷ []) ≡ true)
      × ((ms : List PortMapping) × (unit_ports_to_podman_port_mapping (port ∷ []) ≡ inr ms)
          × AllMapped (port ∷ []) ms))
    ⊎ ((all (λ p. not (is_zero p.container_port)) (port ∷ []) ≡ false)
        × ((e : Error) × (unit_ports_to_podman_port_mapping (port ∷ []) ≡ inl e)))
unit_ports_to_podman_port_mapping_lem_example = unit_ports_to_podman_port_mapping_lem (port ∷ [])
