-- ===== src/UnitDir/Pull.antt =====
-- Image pulls: `PullAndExtractImage` of pkg/unit/unit.go over the client of pkg/image/tosi.go.
use itzo.Base.{
  ◌≡◌, refl, ap, Bool, true, not, ◌||◌, Option, List, [], ◌∷◌, ◌++◌, if◌then◌else◌, ◌==◌, str_eq,
  str_beq, str_beq_refl, Str, lit, Error,
}
use itzo.Io.{Io, raise, check, wrap, ◌>>◌}
use itzo.Io.Os.{Os}
use itzo.Io.Paths.{join_path}
use itzo.UnitDir.{Codecs, OpenedUnit, get_rootfs, set_image, copy_file_from_host}

-- `Tosi`, without the path of its program.
pub record Tosi : Type 0 where
  pub server : Str
  pub username : Str
  pub password : Str
  pub image : Str
  pub extract_with_overlay : Bool

unfoldable pub new_tosi : Tosi
new_tosi = record {
  server = [];
  username = [];
  password = [];
  image = [];
  extract_with_overlay = true;
}

unfoldable pub set_tosi_extraction_type : Bool → Tosi → Tosi
set_tosi_extraction_type b t = record t { extract_with_overlay = b }

-- `Login` and `Pull` only remember their arguments, and give no error.
unfoldable pub login : Str → Str → Str → Tosi → Tosi
login server username password t = record t {
  server = server;
  username = username;
  password = password;
}

unfoldable pub pull : Str → Str → Tosi → Tosi
pull server image t = record t { server = server; image = image }

-- A flag with its value, unless the value is empty.
flag : Str → Str → List Str
flag name [] = []
flag name (c ∷ value) = name ∷ (c ∷ value) ∷ []

unfoldable pub build_tosi_args : Bool → Str → Str → Str → Str → Str → Str → List Str
unfolding lit flag
build_tosi_args overlay server image dest config_path username password =
    (lit "-image"
      ∷ image
      ∷ (if overlay then lit "-mount" else lit "-extractto")
      ∷ dest
      ∷ lit "-saveconfig"
      ∷ config_path
      ∷ [])
    ++ (flag (lit "-username") username
        ++ (flag (lit "-password") password ++ flag (lit "-url") server))

-- `run_prog` finds the program and runs it with these arguments.
module _ {W : Type 0} (os : Os W) (codecs : Codecs)
    (run_prog : List Str → W → Option Error × W) where
  unfoldable pub run : List Str → Io W (Unit {0})
  run args w = let r = run_prog args w in check r.0 r.1

  unfoldable pub unpack : Tosi → Str → Str → Str → Io W (Unit {0})
  unfolding str_beq
  unpack t image dest config_path =
      if not (image == t.image)
      then raise (Error.errorf "image mismatch %q != %q" (t.image ∷ image ∷ []))
      else run (
          build_tosi_args t.extract_with_overlay t.server t.image dest config_path t.username
            t.password)

  -- The client is logged in unless there is neither a user nor a password.
  unfoldable pub client : Bool → Str → Str → Str → Str → Tosi
  unfolding new_tosi login pull set_tosi_extraction_type str_beq
  client overlay image server username password =
      let cli =
        if not (username == []) || not (password == [])
        then login server username password new_tosi
        else new_tosi in
      pull server image (set_tosi_extraction_type overlay cli)

  unfoldable pub pull_and_extract_image : OpenedUnit → Str → Str → Str → Str → Io W (Unit {0})
  unfolding lit
  pull_and_extract_image u image server username password =
      let cli = client u.unit.unit_config.use_overlayfs image server username password in
      do
        wrap (Error.wrapf "setting image for unit: %v" []) (set_image os codecs image u)
        unpack cli image (get_rootfs u) (join_path (u.directory ∷ lit "config" ∷ []))
        copy_file_from_host os u (lit "/etc/resolv.conf") true

  client-eq :
      (overlay : Bool) (image server username password : Str)
      → client overlay image server username password ≡ record {
        server = server;
        username = username;
        password = password;
        image = image;
        extract_with_overlay = overlay;
      }
  unfolding client
  client-eq overlay image server [] [] = refl
  client-eq overlay image server [] (c ∷ password) = refl
  client-eq overlay image server (c ∷ username) password = refl

  unpack-same :
      (t : Tosi) (dest config_path : Str)
      → unpack t t.image dest config_path
        ≡ run (
            build_tosi_args t.extract_with_overlay t.server t.image dest config_path t.username
              t.password)
  unfolding unpack
  unpack-same t dest config_path = simp (str_beq_refl t.image)

  -- Pulling an image is setting the image in the status, one run of the program, and the copy of
  -- the host's `/etc/resolv.conf`. The arguments of the run are those of `buildTosiArgs` at the
  -- overlay of the unit's configuration in memory, the server, the image, the unit's root file system
  -- and configuration, and the user and the password as they were given, also where one of
  -- them or both are empty; the error of an image that does not match never occurs.
  pub pull_and_extract_image_lem :
      (u : OpenedUnit) (image server username password : Str)
      → pull_and_extract_image u image server username password ≡ (do
        wrap (Error.wrapf "setting image for unit: %v" []) (set_image os codecs image u)
        run (
            build_tosi_args u.unit.unit_config.use_overlayfs server image
              (get_rootfs u)
              (join_path (u.directory ∷ lit "config" ∷ []))
              username
              password)
        copy_file_from_host os u (lit "/etc/resolv.conf") true)
  unfolding pull_and_extract_image
  pull_and_extract_image_lem u image server username password =
      rw (client-eq u.unit.unit_config.use_overlayfs image server username password) (
        ap
          (λ (m : Io W (Unit {0})). do
            wrap (Error.wrapf "setting image for unit: %v" []) (set_image os codecs image u)
            m
            copy_file_from_host os u (lit "/etc/resolv.conf") true)
          (unpack-same
            (record {
              server = server;
              username = username;
              password = password;
              image = image;
              extract_with_overlay = u.unit.unit_config.use_overlayfs;
            })
            (get_rootfs u) (join_path (u.directory ∷ lit "config" ∷ []))))
