-- ===== src/Controller/Secrets.antt =====
-- `MergeSecretsIntoSpec` of pkg/server/pod_controller.go.
pub mod Laws
use itzo.Base.{Option, none, some, List, [], ◌∷◌, ◌++◌, map, Str, Map, lookup}
use itzo.Api.{UnitSpec, EnvVar, EnvVarSource, SecretKeySelector}

abbrev pub Secrets : Type 0
Secrets = Map (Map Str)

-- The two map lookups, both of which skip the variable if they fail.
find_key : Str → Option (Map Str) → Option Str
find_key key none = none
find_key key (some m) = lookup key m

find_secret : Secrets → SecretKeySelector → Option Str
unfolding find_key
find_secret secrets ref = find_key ref.key (lookup ref.name secrets)

-- One variable: kept, replaced, or skipped. A source that is no secret is skipped without a word.
resolve_source : Secrets → EnvVar → Option EnvVarSource → Option EnvVar
unfolding find_secret
resolve_source secrets ev none = some ev
resolve_source secrets ev (some source) = elim source.secret_key_ref [
  | none ↦ none
  | some ref ↦ elim (find_secret secrets ref) [
    | none ↦ none
    | some val ↦ some (record { name = ev.name; value = val; value_from = none })
  ]
]

append_resolved : List EnvVar → Option EnvVar → List EnvVar
append_resolved new_env none = new_env
append_resolved new_env (some ev) = new_env ++ ev ∷ []

-- The loop over one unit's variables, with `newEnv` so far.
merge_env : Secrets → List EnvVar → List EnvVar → List EnvVar
unfolding resolve_source append_resolved
merge_env secrets new_env [] = new_env
merge_env secrets new_env (ev ∷ env) =
    merge_env secrets (append_resolved new_env (resolve_source secrets ev ev.value_from)) env

unfoldable pub merge_secrets_into_spec : Secrets → List UnitSpec → List UnitSpec
unfolding merge_env
merge_secrets_into_spec secrets [] = []
merge_secrets_into_spec secrets (unit ∷ units) =
    record unit { env = merge_env secrets [] unit.env } ∷ merge_secrets_into_spec secrets units
