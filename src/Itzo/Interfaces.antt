-- ===== src/Itzo/Interfaces.antt =====
-- What the runtime calls: the interfaces `UnitRunner`, `Mounter` and `ImageService`, and the functions
-- of package unit, over one state `W` of all of them.
use itzo.Base.{ℕ, Bool, Option, none, some, List, [], ◌∷◌, Str, Map, Error, ◌⊎◌}
use itzo.Api.{RestartPolicy, RegistryCredentials, UnitStatus, Volume}
use itzo.RunUnit.State.{UnitConfig}

-- A method with an `error` as its only result.
abbrev pub Act : Type 0 → Type 0
Act W = W → Option Error × W

-- The pod's name, its host name, the unit's name, the working directory, the network namespace, the
-- command, its arguments, and the environment.
pub record Services (W : Type 0) : Type 0 where
  pub start_unit :
      Str → Str → Str → Str → Str → List Str → List Str → List Str → RestartPolicy → Act W
  pub stop_unit : Str → Act W
  pub remove_unit : Str → Act W
  pub unit_running : Str → W → Bool
  pub get_pid : Str → W → Option ℕ
  pub create_mount : Volume → Act W
  pub delete_mount : Volume → Act W
  pub attach_mount : Str → Str → Str → Act W
  pub detach_mount : Str → Str → Act W
  pub pull_image : Str → Str → Str → Map RegistryCredentials → Bool → Act W

-- `U` is a unit that was opened. `pull_and_extract_image` gets the repository, the server, the user
-- and the password.
pub record UnitPackage (W U : Type 0) : Type 0 where
  pub is_unit_exist : Str → Str → W → Bool
  pub open_unit : Str → Str → W → (Error ⊎ U) × W
  pub get_status : U → W → Error ⊎ UnitStatus
  pub save_unit_config : U → UnitConfig → Act W
  pub set_unit_config_overlayfs : Bool → U → U
  pub pull_and_extract_image : U → Str → Str → Str → Str → Act W

module _ {W : Type 0} where
  abbrev pub and_then : Act W → Act W → Act W
  and_then m k w = elim (m w).0 [ none ↦ k (m w).1 | some e ↦ (some e, (m w).1) ]

  -- A loop that an error leaves.
  unfoldable pub each {ℓ} : {A : Type ℓ} → (A → Act W) → List A → Act W
  each body [] w = (none, w)
  each body (x ∷ xs) w =
      let rest = each body xs (body x w).1 in
      elim (body x w).0 [ none ↦ rest | some e ↦ (some e, (body x w).1) ]
