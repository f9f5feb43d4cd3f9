-- ===== src/RunUnit/Identity.antt =====
-- Who runs a unit's command, and which command: `CreateCommand`, `GetEnv`, `GetWorkingDir`,
-- `GetUser` and `getCapabilities` of pkg/unit/unit.go.
use itzo.Base.{
  ℕ, Option, none, some, List, [], ◌∷◌, ◌++◌, map, if◌then◌else◌, Str, str_beq, lit, ℤ, to_uint32,
  Error, ◌⊎◌, inl, inr,
}
use itzo.Utils.Users.{UserLookup, lookup_user}
use itzo.RunUnit.State.{RunnableUnit, Config}

or_list {ℓ} : {A : Type ℓ} → List A → List A → List A
or_list [] second = second
or_list (x ∷ xs) second = x ∷ xs

-- The image's entrypoint stands in for a missing command, and then its command for missing
-- arguments.
unfoldable pub create_command : RunnableUnit → List Str → List Str → List Str
unfolding or_list
create_command u (c ∷ command) args = c ∷ command ++ args
create_command u [] args = elim u.config [
  | none ↦ args
  | some config ↦ config.entrypoint ++ or_list args config.cmd
]

unfoldable pub get_env : RunnableUnit → List Str
get_env u = elim u.config [ none ↦ [] | some config ↦ config.env ]

unfoldable pub get_working_dir : RunnableUnit → Str
get_working_dir u = elim u.config [ none ↦ [] | some config ↦ config.working_dir ]

-- A number that a security context gives goes before the one that is there.
or_given : ℕ → Option ℤ → ℕ
or_given old none = old
or_given old (some i) = to_uint32 i

groups_of : List ℤ → Option (List ℕ)
groups_of [] = none
groups_of (g ∷ gs) = some (map to_uint32 (g ∷ gs))

-- The image's user: none is uid 0 and gid 0 with the home `/`.
image_user : (Str → Error ⊎ ℤ) → UserLookup → Option Config → Error ⊎ (ℕ × ℕ × Str)
unfolding lookup_user str_beq lit
image_user atoi l none = inr (0, 0, lit "/")
image_user atoi l (some config) =
    if str_beq config.user [] then inr (0, 0, lit "/") else lookup_user atoi l config.user

-- The uid, the gid, the groups and the home directory.
unfoldable pub get_user :
    (Str → Error ⊎ ℤ) → UserLookup → RunnableUnit → Error ⊎ (ℕ × ℕ × Option (List ℕ) × Str)
unfolding or_given groups_of image_user
get_user atoi l u = elim (image_user atoi l u.config) [
  | inl e ↦ inl e
  | inr (uid, gid, home) ↦
      let pod = u.unit_config.pod_security_context in
      let unit = u.unit_config.security_context in
      inr (
        or_given (or_given uid pod.run_as_user) unit.run_as_user,
        or_given (or_given gid pod.run_as_group) unit.run_as_group,
        groups_of pod.supplemental_groups,
        home,
      )
]
