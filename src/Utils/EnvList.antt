-- ===== src/Utils/EnvList.antt =====
-- `AddToEnvList` of pkg/util/envlist.go: one variable put into a list of `name=value` texts.
pub mod Laws
use itzo.Base.{
  ℕ, Bool, true, false, not, Option, none, some, List, [], ◌∷◌, ◌++◌, if◌then◌else◌, ◌==◌, str_eq,
  Str, split2, str_beq, Map, insert,
}
use itzo.Api.{EnvVar}

-- `=`
abbrev pub equals : ℕ
equals = b'='

-- `items[0]` of an entry.
unfoldable pub name_of : Str → Str
unfolding split2
name_of e = (split2 equals e).0

abbrev pub entry : Str → Str → Str
entry key value = key ++ equals ∷ value

abbrev pub reverse_onto {ℓ} : {A : Type ℓ} → List A → List A → List A
reverse_onto [] acc = acc
reverse_onto (x ∷ xs) acc = reverse_onto xs (x ∷ acc)

-- The loop on the rest of the entries, the last one of the list first.
add_from : Str → Str → Bool → Bool → List Str → List Str
unfolding name_of str_beq
add_from key value overwrite found [] = if found then [] else entry key value ∷ []
add_from key value overwrite found (e ∷ rest) =
    let others = add_from key value overwrite found rest in
    let after = add_from key value overwrite true rest in
    if not (name_of e == key)
    then e ∷ others
    else if found
    then others
    else if overwrite
    then entry key value ∷ after
    else e ∷ after

unfoldable pub add_to_env_list : List Str → Str → Str → Bool → List Str
unfolding add_from
add_to_env_list env key value overwrite = add_from key value overwrite false (reverse_onto env [])

api_env_vars_from : Map Str → List EnvVar → Map Str
api_env_vars_from result [] = result
api_env_vars_from result (env ∷ envs) = api_env_vars_from (insert env.name env.value result) envs

unfoldable pub api_env_vars_to_map : List EnvVar → Map Str
unfolding api_env_vars_from
api_env_vars_to_map = api_env_vars_from []

-- `items[1]` panics, `none`, for an entry without an equals sign.
unfoldable pub environ_to_api_env_var : List Str → Option (List EnvVar)
unfolding split2
environ_to_api_env_var [] = some []
environ_to_api_env_var (e ∷ envs) =
    let (name, value) = split2 equals e in
    let rest = environ_to_api_env_var envs in
    elim value [
      | none ↦ none
      | some v ↦ elim rest [
        | none ↦ none
        | some vars ↦ some (record { name = name; value = v; value_from = none } ∷ vars)
      ]
    ]
