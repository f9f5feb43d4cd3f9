-- ===== src/Podman/Laws.antt =====
-- What the controller learns of containers under podman, and what podman is told of the ports.
use itzo.Base.{
  lit, ℕ, to_lower, ◌+◌, ◌*◌, ◌/◌, ◌<◌, ◌≡◌, refl, ap, ◌∙◌, Bool, true, false, not, ◌&&◌, ◌||◌,
  Option, none, some, is_some, List, [], ◌∷◌, map, All, all, nat_eq, str_eq, str_beq, Str, Map, ℤ,
  pos, negsuc, is_zero, Error, ◌⊎◌, inl, inr, arith, Bool-cases,
}
use itzo.Api.{
  UnitSpec, PodSpec, VolumeMount, ContainerPort, SecurityContext, Volume, RegistryCredentials,
  UnitStatus, UnitState, make_still_creating_status,
}
use itzo.Io.Os.{Os}
use itzo.Podman.Convert.{
  PortMapping, to_uint16, mapping_of, unit_ports_to_podman_port_mapping, milpa_to_k8s_volume,
  unit_to_container, plain_mount, ContainerData,
}
use itzo.Podman.{
  Client, find_volume, mounts_of, pull_image, create_pulled, create_container, status_of,
}

-- One of the six sources is there.
abbrev pub has_source : Volume → Bool
has_source v =
    is_some v.secret
    || is_some v.host_path
    || is_some v.config_map
    || is_some v.empty_dir
    || is_some v.projected
    || is_some v.package_path

-- Of the three states, one.
abbrev pub OneState : UnitState → Bool → Type 0
OneState s ready =
    (is_some s.running ≡ ready)
    × (is_some s.terminated && is_some s.waiting ≡ false)
    × (is_some s.running || is_some s.terminated || is_some s.waiting ≡ true)

module _ {W : Type 0} (os : Os W) (client : Client W) where
  milpa_to_k8s_volume-some :
      (v : Volume) (w : W) → has_source v ≡ true → is_some (milpa_to_k8s_volume os v w) ≡ true
  unfolding milpa_to_k8s_volume
  milpa_to_k8s_volume-some v w h = ground arith

  find_volume-source :
      (name : Str) (vs : List Volume)
      → All (λ v. has_source v ≡ true) vs
      → (find_volume name vs ≡ none)
        ⊎ ((v : Volume) × (find_volume name vs ≡ some v) × (has_source v ≡ true))
  unfolding find_volume
  find_volume-source name [] h = inl refl
  find_volume-source name (v ∷ vs) h = elim (Bool-cases (str_beq v.name name)) [
    | inl e ↦ inr (v, rw e, h.0)
    | inr e ↦ rw e (find_volume-source name vs h.1)
  ]

  mounts_of-some :
      (ms : List VolumeMount) (vs : List Volume) (w : W)
      → All (λ v. has_source v ≡ true) vs
      → is_some (mounts_of os client ms vs w) ≡ true
  unfolding mounts_of
  mounts_of-some [] vs w h = refl
  mounts_of-some (m ∷ ms) vs w h = elim (find_volume-source m.name vs h) [
    | inl e ↦ ground (arith, mounts_of-some ms vs w h)
    | inr (v, e, s) ↦ ground (arith, milpa_to_k8s_volume-some v w s, mounts_of-some ms vs w h)
  ]

  create_pulled-reply :
      (unit : UnitSpec) (spec : PodSpec) (ms : List VolumeMount) (r : Option Error × W)
      → All (λ v. has_source v ≡ true) spec.volumes
      → (status : UnitStatus) × ((create_pulled os client unit spec ms r).0
          ≡ some (record { status = some status; err = r.0 }))
  unfolding create_pulled
  create_pulled-reply unit spec ms (some e, w) h = (_, refl)
  create_pulled-reply unit spec ms (none, w) h = (
    make_still_creating_status unit.name unit.image (lit "Container created"),
    ground (arith, mounts_of-some ms spec.volumes w h),
  )

  -- If every volume of the pod has a source, CreateContainer does not panic: it returns a status,
  -- with the error of the image's pull and no other, so that it reports success whatever podman
  -- answers to the creation itself.
  pub create_container-reply :
      (unit : UnitSpec) (spec : PodSpec) (creds : Map RegistryCredentials) (w : W)
      → All (λ v. has_source v ≡ true) spec.volumes
      → (status : UnitStatus) × ((create_container os client unit spec creds w).0
          ≡ some
              (record { status = some status; err = (pull_image os client unit.image creds w).0 }))
  unfolding create_container
  create_container-reply unit spec creds w h =
      create_pulled-reply unit spec (unit_to_container unit).volume_mounts
        (pull_image os client unit.image creds w) h

  plain_mounts :
      (f : VolumeMount → Str) (ms : List VolumeMount)
      → map plain_mount (map (λ (m : VolumeMount). record m { sub_path = f m }) ms)
        ≡ map plain_mount ms
  unfolding plain_mount
  plain_mounts f [] = refl
  plain_mounts f (m ∷ ms) = ap (λ l. plain_mount m ∷ l) (plain_mounts f ms)

  create_pulled-unread :
      (unit : UnitSpec) (spec : PodSpec) (args : List Str) (dir : Str)
      (context : Option SecurityContext) (mounts ms : List VolumeMount) (r : Option Error × W)
      → create_pulled os client
          (record unit {
            args = args;
            working_dir = dir;
            security_context = context;
            volume_mounts = mounts;
          })
          spec
          ms
          r
        ≡ create_pulled os client unit spec ms r
  unfolding create_pulled
  create_pulled-unread unit spec args dir context mounts ms (some e, w) = refl
  create_pulled-unread unit spec args dir context mounts ms (none, w) = refl

  -- The arguments, the working directory and the security context of a unit, and the paths inside of
  -- volumes that it asks for, have no effect on the container that is created.
  pub create_container-unread :
      (unit : UnitSpec) (spec : PodSpec) (creds : Map RegistryCredentials) (w : W) (args : List Str)
      (dir : Str) (context : Option SecurityContext) (sub_path : VolumeMount → Str)
      → create_container os client
          (record unit {
            args = args;
            working_dir = dir;
            security_context = context;
            volume_mounts =
                map (λ (m : VolumeMount). record m { sub_path = sub_path m }) unit.volume_mounts;
          })
          spec
          creds
          w
        ≡ create_container os client unit spec creds w
  unfolding create_container
  create_container-unread unit spec creds w args dir context sub_path =
      create_pulled-unread unit spec args dir context
        (map (λ (m : VolumeMount). record m { sub_path = sub_path m }) unit.volume_mounts)
        (map plain_mount
          (map (λ (m : VolumeMount). record m { sub_path = sub_path m }) unit.volume_mounts))
        (pull_image os client unit.image creds w)
      ∙ ap (λ l. create_pulled os client unit spec l (pull_image os client unit.image creds w))
          (plain_mounts sub_path unit.volume_mounts)

  abbrev Reported : Str → Str → Option ContainerData × Option Error → Option UnitStatus → Type 0
  Reported name image r running =
      ((r.0 ≡ none) × (status_of os client name image r.0 r.1 ≡ none) × (running ≡ none))
      ⊎ ((status : UnitStatus) × (other : UnitStatus) × (status_of os client name image r.0 r.1
            ≡ some status)
          × (running ≡ some other)
          × (is_some other.state.running ≡ status.ready)
          × OneState status.state status.ready)

-- A number of 16 bits that differs from the given one by a multiple of 2 ^ 16.
abbrev pub IsCut : ℤ → ℕ → Type 0
IsCut (pos n) c = (c < 65536) × ((k : ℕ) × (n ≡ c + k * 65536))
IsCut (negsuc n) c = (c < 65536) × ((k : ℕ) × (c + (n + 1) ≡ k * 65536))

to_uint16-IsCut : (n : ℤ) → IsCut n (to_uint16 n)
unfolding to_uint16
to_uint16-IsCut (pos n) = (omega arith, (n / 65536, omega arith))
to_uint16-IsCut (negsuc n) = (omega arith, (n / 65536 + 1, omega arith))

-- The mapping of a port: its number in the container, and on the host the number given for that, or
-- the same one if none is given; both cut to 16 bits.
pub record IsMapped (port : ContainerPort) (m : PortMapping) : Type 0 where
  pub in_container : IsCut port.container_port m.container_port
  pub given : is_zero port.host_port ≡ false → IsCut port.host_port m.host_port
  pub same : is_zero port.host_port ≡ true → m.host_port ≡ m.container_port
  pub protocol : m.protocol ≡ to_lower port.protocol

-- One mapping for each port, in order.
abbrev pub AllMapped : List ContainerPort → List PortMapping → Type 0
AllMapped [] [] = Unit
AllMapped [] (m ∷ ms) = ⊥
AllMapped (port ∷ ports) [] = ⊥
AllMapped (port ∷ ports) (m ∷ ms) = IsMapped port m × AllMapped ports ms

mapping_of-IsMapped : (port : ContainerPort) → IsMapped port (mapping_of port)
unfolding mapping_of
mapping_of-IsMapped port = record {
  in_container = to_uint16-IsCut port.container_port;
  given = λ h. rw h (to_uint16-IsCut port.host_port);
  same = λ h. rw h refl;
  protocol = refl;
}

-- Without a container port of 0, each port of a unit gives one mapping, in order: the host's port is
-- the one given or else the container's, and both are cut to 16 bits, which changes a larger or a
-- negative number by a multiple of 2 ^ 16. With a container port of 0 there is an error and no
-- mapping.
pub unit_ports_to_podman_port_mapping_lem :
    (ports : List ContainerPort)
    → ((all (λ p. not (is_zero p.container_port)) ports ≡ true)
        × ((ms : List PortMapping) × (unit_ports_to_podman_port_mapping ports ≡ inr ms)
            × AllMapped ports ms))
      ⊎ ((all (λ p. not (is_zero p.container_port)) ports ≡ false)
          × ((e : Error) × (unit_ports_to_podman_port_mapping ports ≡ inl e)))
unfolding unit_ports_to_podman_port_mapping
unit_ports_to_podman_port_mapping_lem [] = inl (refl, ([], refl, tt))
unit_ports_to_podman_port_mapping_lem (port ∷ ports) =
    elim (Bool-cases (is_zero port.container_port)) [
      | inl z ↦ inr (rw z, (Error.errorf "container port has to be set" [], rw z))
      | inr z ↦ elim (unit_ports_to_podman_port_mapping_lem ports) [
        | inl (h, (ms, e, b)) ↦
            inl (rw z h, (mapping_of port ∷ ms, rw (z, e), (mapping_of-IsMapped port, b)))
        | inr (h, (e, p)) ↦ inr (rw z h, (e, rw (z, p)))
      ]
    ]
