-- ===== src/Controller/Secrets/Laws.antt =====
-- What merging secrets does to the environment of the units.
use itzo.Base.{
  ◌≡◌, refl, sym, ap₂, ◌∙◌, Option, none, some, List, [], ◌∷◌, ◌++◌, append-nil, append_assoc,
  arith, All, All-append,
}
use itzo.Api.{UnitSpec, EnvVar}
use itzo.Controller.Secrets.{
  Secrets, resolve_source, append_resolved, merge_env, merge_secrets_into_spec,
}

-- The variable as the pod gets it.
abbrev resolve : Secrets → EnvVar → Option EnvVar
resolve secrets ev = resolve_source secrets ev ev.value_from

-- The variables that can be resolved, in their order.
abbrev resolved : Secrets → List EnvVar → List EnvVar
resolved secrets [] = []
resolved secrets (ev ∷ env) = append_resolved [] (resolve secrets ev) ++ resolved secrets env

append-resolved :
    (new_env : List EnvVar) (o : Option EnvVar) (rest : List EnvVar)
    → append_resolved new_env o ++ rest ≡ new_env ++ (append_resolved [] o ++ rest)
unfolding append_resolved
append-resolved new_env none rest = refl
append-resolved new_env (some ev) rest = append_assoc new_env (ev ∷ []) rest

merge_env-eq-resolved :
    (secrets : Secrets) (new_env env : List EnvVar)
    → merge_env secrets new_env env ≡ new_env ++ resolved secrets env
unfolding merge_env
merge_env-eq-resolved secrets new_env [] = sym (append-nil new_env)
merge_env-eq-resolved secrets new_env (ev ∷ env) =
    merge_env-eq-resolved secrets (append_resolved new_env (resolve secrets ev)) env
    ∙ append-resolved new_env (resolve secrets ev) (resolved secrets env)

abbrev IsLiteral : EnvVar → Type 0
IsLiteral ev = ev.value_from ≡ none

resolve-IsLiteral :
    (secrets : Secrets) (ev r : EnvVar) → resolve secrets ev ≡ some r → r.value_from ≡ none
unfolding resolve_source
resolve-IsLiteral secrets ev r h = ground arith

append_resolved-IsLiteral :
    (o : Option EnvVar)
    → ((r : EnvVar) → o ≡ some r → r.value_from ≡ none)
    → All IsLiteral (append_resolved [] o)
unfolding append_resolved
append_resolved-IsLiteral none h = tt
append_resolved-IsLiteral (some r) h = (h r refl, tt)

resolved-IsLiteral : (secrets : Secrets) (env : List EnvVar) → All IsLiteral (resolved secrets env)
resolved-IsLiteral secrets [] = tt
resolved-IsLiteral secrets (ev ∷ env) =
    All-append IsLiteral (append_resolved [] (resolve secrets ev)) (resolved secrets env)
      (append_resolved-IsLiteral (resolve secrets ev) (resolve-IsLiteral secrets ev))
      (resolved-IsLiteral secrets env)

resolved-literal :
    (secrets : Secrets) (env : List EnvVar) → All IsLiteral env → resolved secrets env ≡ env
unfolding resolve_source append_resolved
resolved-literal secrets [] h = refl
resolved-literal secrets (ev ∷ env) h = ground (arith, resolved-literal secrets env)

-- After the merge no variable of any unit refers to a secret.
merge_secrets_into_spec-IsLiteral :
    (secrets : Secrets) (units : List UnitSpec)
    → All (λ unit. All IsLiteral unit.env) (merge_secrets_into_spec secrets units)
unfolding merge_secrets_into_spec
merge_secrets_into_spec-IsLiteral secrets [] = tt
merge_secrets_into_spec-IsLiteral secrets (unit ∷ units) = (
  rw (merge_env-eq-resolved secrets [] unit.env) (resolved-IsLiteral secrets unit.env),
  merge_secrets_into_spec-IsLiteral secrets units,
)

-- Merging once more, whatever the secrets are then, changes nothing.
merge_secrets_into_spec_idem :
    (secrets later : Secrets) (units : List UnitSpec)
    → let merged = merge_secrets_into_spec secrets units in
      merge_secrets_into_spec later merged ≡ merged
unfolding merge_secrets_into_spec
merge_secrets_into_spec_idem secrets later [] = refl
merge_secrets_into_spec_idem secrets later (unit ∷ units) =
    ap₂ (λ env rest. record unit { env = env } ∷ rest)
      (merge_env-eq-resolved later [] (merge_env secrets [] unit.env)
        ∙ resolved-literal later (merge_env secrets [] unit.env)
            (rw (merge_env-eq-resolved secrets [] unit.env) (resolved-IsLiteral secrets unit.env)))
      (merge_secrets_into_spec_idem secrets later units)
