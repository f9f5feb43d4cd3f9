-- ===== src/Itzo/Pull.antt =====
-- `ImagePuller.PullImage`.
use itzo.Base.{
  Bool, not, ◌&&◌, Option, none, some, [], ◌∷◌, ◌++◌, if◌then◌else◌, ◌==◌, str_eq, str_beq, Str,
  lit, Map, Error, has_prefix, ◌⊎◌, inl, inr,
}
use itzo.Api.{RegistryCredentials}
use itzo.Utils.Images.{parse_image_spec, get_repo_creds}
use itzo.Itzo.Interfaces.{Act, UnitPackage}

official : Str → Str
unfolding lit str_beq
official server = if server == lit "docker.io" then lit "registry-1.docker.io" else server

with_scheme : Str → Str
unfolding lit str_beq has_prefix
with_scheme server =
    if not (server == []) && not (has_prefix server (lit "http"))
    then lit "https://" ++ server
    else server

-- The address of the registry that is asked.
unfoldable pub server_url : Str → Str
unfolding official with_scheme
server_url server = with_scheme (official server)

module _ {W U : Type 0} (units : UnitPackage W U) where
  pull_opened : Str → Str → Str × Str → Str × Str → Bool → (Error ⊎ U) × W → Option Error × W
  unfolding server_url
  pull_opened name image spec creds use_overlayfs (inl e, w) =
      (some (Error.wrapf "opening unit %s for package deploy" (name ∷ []) e), w)
  pull_opened name image spec creds use_overlayfs (inr u, w) =
      let r =
        units.pull_and_extract_image (units.set_unit_config_overlayfs use_overlayfs u) spec.1
          (server_url spec.0) creds.0 creds.1 w in
      elim r.0 [ none ↦ r | some e ↦ (some (Error.wrapf "pulling image %s" (image ∷ []) e), r.1) ]

  -- The credentials are those of the server that the image name gives.
  unfoldable pub pull_image : Str → Str → Str → Map RegistryCredentials → Bool → Act W
  unfolding pull_opened parse_image_spec get_repo_creds
  pull_image rootdir name image registry_credentials use_overlayfs w =
      let spec = parse_image_spec image in
      pull_opened name image spec (get_repo_creds spec.0 registry_credentials) use_overlayfs
        (units.open_unit rootdir name w)
