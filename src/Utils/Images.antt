-- ===== src/Utils/Images.antt =====
-- pkg/util/image.go, ports.go and probes.go: image names, registry credentials, ports by name.
use itzo.Base.{
  ℕ, ◌≡◌, refl, sym, ap, ◌∙◌, Bool, true, false, ◌||◌, Option, none, some, List, [], ◌∷◌, ◌++◌,
  if◌then◌else◌, ◌==◌, nat_eq, str_eq, str_beq, Str, lit, Map, lookup, contains_byte, split, join,
  join-split, one_part, ℤ, Error, ◌⊎◌, inl, inr, Bool-cases,
}
use itzo.Api.{
  RegistryCredentials, ContainerPort, UnitSpec, Probe, HttpGetAction, IntOrString, int, str, other,
}

abbrev pub slash : ℕ
slash = b'/'

abbrev pub dot : ℕ
dot = b'.'

parse_parts : Str → Str × List Str → Str × Str
unfolding join contains_byte lit
parse_parts image (part, []) = ([], join slash (lit "library") (part ∷ []))
parse_parts image (part, next ∷ parts) =
    if contains_byte dot part then (part, join slash next parts) else ([], image)

unfoldable pub parse_image_spec : Str → Str × Str
unfolding parse_parts split
parse_image_spec image = parse_parts image (split slash image)

-- `strings.HasSuffix`, by reading both from the end.
ends_with : Str → Str → Bool
unfolding str_beq
ends_with [] suffix = str_beq [] suffix
ends_with (c ∷ s) suffix = let rest = ends_with s suffix in str_beq (c ∷ s) suffix || rest

pair_of : RegistryCredentials → Str × Str
pair_of c = (c.username, c.password)

first_creds : Map RegistryCredentials → List Str → Str × Str
unfolding pair_of lookup
first_creds all_creds [] = ([], [])
first_creds all_creds (server ∷ servers) =
    let rest = first_creds all_creds servers in
    elim (lookup server all_creds) [ none ↦ rest | some c ↦ pair_of c ]

unfoldable pub get_repo_creds : Str → Map RegistryCredentials → Str × Str
unfolding first_creds pair_of lookup lit ends_with
get_repo_creds server all_creds = elim (lookup server all_creds) [
  | none ↦
      if str_beq server [] || ends_with server (lit "docker.io")
      then first_creds all_creds
          (lit "index.docker.io" ∷ lit "registry-1.docker.io" ∷ lit "docker.io" ∷ [])
      else ([], [])
  | some c ↦ pair_of c
]

find_port : Str → List ContainerPort → Error ⊎ ℤ
unfolding str_beq
find_port name [] = inl (Error.errorf "port %s not found" (name ∷ []))
find_port name (port ∷ ports) =
    let rest = find_port name ports in if port.name == name then inr port.container_port else rest

unfoldable pub find_port_by_name : UnitSpec → Str → Error ⊎ ℤ
unfolding find_port
find_port_by_name unit name = find_port name unit.ports

translate_port : UnitSpec → IntOrString → IntOrString
unfolding find_port_by_name
translate_port unit (int n) = int n
translate_port unit other = other
translate_port unit (str name) = elim (find_port_by_name unit name) [
  | inl e ↦ str name
  | inr port ↦ int port
]

translate_action : UnitSpec → HttpGetAction → HttpGetAction
unfolding translate_port
translate_action unit action = record action { port = translate_port unit action.port }

-- The probe and its action are copied before they are changed.
unfoldable pub translate_probe_ports : UnitSpec → Option Probe → Option Probe
unfolding translate_action
translate_probe_ports unit none = none
translate_probe_ports unit (some p) = elim p.http_get [
  | none ↦ some p
  | some action ↦ some (record p { http_get = some (translate_action unit action) })
]

-- Of an image name: without a slash it is looked up, on no named server, under `library/`; else it
-- is the name itself on no named server, or server and name joined by a slash are the image name
-- and the server has a dot.
parse_image_spec_lem :
    (image : Str)
    → ((contains_byte slash image ≡ false)
        × (parse_image_spec image ≡ ([], lit "library" ++ slash ∷ image)))
      ⊎ (parse_image_spec image ≡ ([], image))
      ⊎ ((contains_byte dot (parse_image_spec image).0 ≡ true)
          × ((parse_image_spec image).0 ++ slash ∷ (parse_image_spec image).1 ≡ image))
unfolding parse_image_spec join
parse_image_spec_lem image = go (split slash image) refl
  where
    joined :
        (part next : Str) (parts : List Str)
        → split slash image ≡ (part, next ∷ parts)
        → part ++ slash ∷ join slash next parts ≡ image
    joined part next parts e = sym (ap (λ r. join slash r.0 r.1) e) ∙ join-split slash image

    go :
        (r : Str × List Str)
        → split slash image ≡ r
        → ((contains_byte slash image ≡ false)
            × (parse_parts image r ≡ ([], lit "library" ++ slash ∷ image)))
          ⊎ (parse_parts image r ≡ ([], image))
          ⊎ ((contains_byte dot (parse_parts image r).0 ≡ true)
              × ((parse_parts image r).0 ++ slash ∷ (parse_parts image r).1 ≡ image))
    go (part, []) e =
        let o = one_part slash image (ap (λ r. r.1) e) in
        inl (o.0, ap (λ t. ([], lit "library" ++ slash ∷ t)) (sym (ap (λ r. r.0) e) ∙ o.1))
    go (part, next ∷ parts) e = elim (Bool-cases (contains_byte dot part)) [
      | inl h ↦ inr (inr (simp h, simp h (joined part next parts e)))
      | inr h ↦ inr (inl (simp h))
    ]
