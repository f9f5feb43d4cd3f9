-- ===== src/Itzo/Removal.antt =====
-- What the runtime asks of its services when containers and sandboxes are made and removed.
use itzo.Base.{
  ◌≡◌, refl, sym, ap, ◌∙◌, Option, none, some, List, [], ◌∷◌, ◌++◌, append_assoc, append-nil, Str,
  Error, ◌⊎◌, inl, inr,
}
use itzo.Api.{UnitSpec, PodSpec, Volume, VolumeMount}
use itzo.Itzo.Interfaces.{Act, Services, UnitPackage, and_then, each}
use itzo.Itzo.{ItzoRuntime, detach_all, remove_unit_files, remove_pod_sandbox}

-- A call of a service, with the names of the unit and of the volume or path.
pub data Event : Type 0 where
  start stop remove pull : Str → Event
  attach : Str → Str → Str → Event
  detach : Str → Str → Event
  create_volume delete_volume : Volume → Event

-- Any services, with a record of the calls that they got, the oldest first.
abbrev pub traced : {W : Type 0} → Services W → Services (W × List Event)
traced s = record {
  start_unit = λ pod host unit dir ns command args env policy w.
      let r = s.start_unit pod host unit dir ns command args env policy w.0 in
      (r.0, (r.1, w.1 ++ start unit ∷ []));
  stop_unit = λ unit w. let r = s.stop_unit unit w.0 in (r.0, (r.1, w.1 ++ stop unit ∷ []));
  remove_unit = λ unit w. let r = s.remove_unit unit w.0 in (r.0, (r.1, w.1 ++ remove unit ∷ []));
  unit_running = λ unit w. s.unit_running unit w.0;
  get_pid = λ unit w. s.get_pid unit w.0;
  create_mount = λ volume w.
      let r = s.create_mount volume w.0 in (r.0, (r.1, w.1 ++ create_volume volume ∷ []));
  delete_mount = λ volume w.
      let r = s.delete_mount volume w.0 in (r.0, (r.1, w.1 ++ delete_volume volume ∷ []));
  attach_mount = λ unit src dst w.
      let r = s.attach_mount unit src dst w.0 in (r.0, (r.1, w.1 ++ attach unit src dst ∷ []));
  detach_mount = λ unit dst w.
      let r = s.detach_mount unit dst w.0 in (r.0, (r.1, w.1 ++ detach unit dst ∷ []));
  pull_image = λ rootdir unit image creds overlay w.
      let r = s.pull_image rootdir unit image creds overlay w.0 in
      (r.0, (r.1, w.1 ++ pull unit ∷ []));
}

module _ {W : Type 0} where
  -- Without an error these are the events, with one they are the first ones of them.
  abbrev pub Happened : List Event → Option Error × (W × List Event) → List Event → Type 0
  Happened es r before =
      ((r.0 ≡ none) × (r.1.1 ≡ before ++ es))
      ⊎ ((e : Error) × (done : List Event) × (rest : List Event) × (r.0 ≡ some e)
          × (es ≡ done ++ rest)
          × (r.1.1 ≡ before ++ done))

  record Causes (m : Act (W × List Event)) (es : List Event) : Type 0 where
    at : (s : W × List Event) → Happened es (m s) s.1

  -- All the events, whether there is an error or not.
  all-Happened :
      (es : List Event) (r : Option Error × (W × List Event)) (before : List Event)
      → r.1.1 ≡ before ++ es
      → Happened es r before
  all-Happened es (none, s) before h = inl (refl, h)
  all-Happened es (some e, s) before h = inr (e, es, [], refl, sym (append-nil es), h)

  prepend :
      (es fs before mid : List Event) (r : Option Error × (W × List Event))
      → mid ≡ before ++ es
      → Happened fs r mid
      → Happened (es ++ fs) r before
  prepend es fs before mid r h (inl (o, k)) = inl (o, k ∙ rw h (append_assoc before es fs))
  prepend es fs before mid r h (inr (e, done, rest, o, p, k)) = inr (
    e,
    es ++ done,
    rest,
    o,
    rw p (sym (append_assoc es done rest)),
    k ∙ rw h (append_assoc before es done),
  )

  and_then-Happened :
      (es fs before : List Event) (o : Option Error) (s : W × List Event) (k : Act (W × List Event))
      → Happened es (o, s) before
      → Causes k fs
      → (let r : Option Error × (W × List Event) = elim o [ none ↦ k s | some e ↦ (some e, s) ] in
          Happened (es ++ fs) r before)
  and_then-Happened es fs before none s k (inl (_, p)) h = prepend es fs before s.1 (k s) p (h.at s)
  and_then-Happened es fs before none s k (inr (e, done, rest, o, p, q)) h = cc
  and_then-Happened es fs before (some e) s k (inl (o, p)) h = cc
  and_then-Happened es fs before (some e) s k (inr (_, done, rest, _, p, q)) h =
      inr (e, done, rest ++ fs, refl, rw p (append_assoc done rest fs), q)

  Causes-and_then :
      (m k : Act (W × List Event)) (es fs : List Event)
      → Causes m es
      → Causes k fs
      → Causes (and_then m k) (es ++ fs)
  Causes-and_then m k es fs h h' = record {
    at = λ s. and_then-Happened es fs s.1 (m s).0 (m s).1 k (h.at s) h';
  }

-- The events of the members of a list, one after the other.
abbrev pub all_events {ℓ} : {A : Type ℓ} → (A → List Event) → List A → List Event
all_events events [] = []
all_events events (x ∷ xs) = events x ++ all_events events xs

Causes-each :
    {W A : Type 0} (body : A → Act (W × List Event)) (events : A → List Event)
    → ((x : A) → Causes (body x) (events x))
    → (xs : List A) → Causes (each body xs) (all_events events xs)
unfolding each
Causes-each body events h [] = record { at = λ s. inl (refl, sym (append-nil s.1)) }
Causes-each body events h (x ∷ xs) =
    Causes-and_then (body x) (each body xs) (events x) (all_events events xs) (h x)
      (Causes-each body events h xs)

abbrev pub detach_events : UnitSpec → List VolumeMount → List Event
detach_events unit [] = []
detach_events unit (m ∷ ms) = detach unit.name m.mount_path ∷ detach_events unit ms

-- The unit is stopped, then its mounts are detached, and then its files are removed.
abbrev pub removal : UnitSpec → List Event
removal unit = stop unit.name ∷ detach_events unit unit.volume_mounts ++ remove unit.name ∷ []

module _ {W U : Type 0} (services : Services W) (units : UnitPackage (W × List Event) U)
    (error_text : Error → Str) (rootdir : Str) where
  detach_all-events :
      (unit : UnitSpec) (ms : List VolumeMount) (s : W × List Event)
      → (detach_all (traced services) units error_text rootdir unit ms s).1
        ≡ s.1 ++ detach_events unit ms
  unfolding detach_all
  detach_all-events unit [] s = sym (append-nil s.1)
  detach_all-events unit (m ∷ ms) s =
      detach_all-events unit ms (((traced services).detach_mount unit.name m.mount_path s).1)
      ∙ append_assoc s.1 (detach unit.name m.mount_path ∷ []) (detach_events unit ms)

  -- Whatever the services answer, a container is removed by these calls and in this order: its unit
  -- is stopped, each of its mounts is detached, in the order of the specification, and its files are
  -- removed. An error of an earlier call does not keep the later ones from being made.
  remove_unit_files-events :
      (unit : UnitSpec) (s : W × List Event)
      → (remove_unit_files (traced services) units error_text rootdir unit s).1.1
        ≡ s.1 ++ removal unit
  unfolding remove_unit_files
  remove_unit_files-events unit s =
      rw (detach_all-events unit unit.volume_mounts (((traced services).stop_unit unit.name s).1)) (
        ap (λ l. l ++ remove unit.name ∷ [])
          (append_assoc s.1 (stop unit.name ∷ []) (detach_events unit unit.volume_mounts))
        ∙ append_assoc s.1 (stop unit.name ∷ detach_events unit unit.volume_mounts)
            (remove unit.name ∷ []))

  remove_unit_files-Causes :
      (unit : UnitSpec)
      → Causes (remove_unit_files (traced services) units error_text rootdir unit) (removal unit)
  remove_unit_files-Causes unit = record {
    at = λ s.
        all-Happened (removal unit)
          (remove_unit_files (traced services) units error_text rootdir unit s) s.1
          (remove_unit_files-events unit s);
  }

  delete_mount-Causes :
      (volume : Volume) → Causes ((traced services).delete_mount volume) (delete_volume volume ∷ [])
  delete_mount-Causes volume = record {
    at = λ s.
        all-Happened (delete_volume volume ∷ []) ((traced services).delete_mount volume s) s.1 refl;
  }

  -- `RemovePodSandbox` removes the containers of the init units and then of the units, each as
  -- `remove_unit_files-events` says, and only after all of them the volumes are deleted. Without an
  -- error these are the calls; with an error they are the first ones of them.
  pub remove_pod_sandbox-events :
      (i : ItzoRuntime (W × List Event)) (spec : PodSpec)
      → (let r = remove_pod_sandbox (traced services) units error_text rootdir i spec in
          Happened
            (all_events removal (spec.init_units ++ spec.units)
              ++ all_events (λ volume. delete_volume volume ∷ []) spec.volumes)
            (r.0, r.1.world)
            i.world.1)
  unfolding remove_pod_sandbox
  remove_pod_sandbox-events i spec =
      (Causes-and_then _ _ _ _
          (Causes-each (remove_unit_files (traced services) units error_text rootdir) removal
            remove_unit_files-Causes (spec.init_units ++ spec.units))
          (Causes-each (traced services).delete_mount (λ volume. delete_volume volume ∷ [])
            delete_mount-Causes spec.volumes)).at
        i.world
