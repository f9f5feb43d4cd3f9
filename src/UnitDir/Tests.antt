-- ===== src/UnitDir/Tests.antt =====
-- A unit in a directory of a small file system.
use itzo.Base.{
  ◌≡◌, refl, true, false, str_eq, Option, none, some, List, [], ◌∷◌, Str, lit, Error, ◌⊎◌, inl, inr,
  Map, lookup, insert, lookup-insert_self, ℕ,
}
use itzo.Io.{ok, wrap, ◌>>◌}
use itzo.Io.Os.{Os, Call, write_file}
use itzo.Io.Paths.{join_path}
use itzo.Api.{make_still_creating_status}
use itzo.RunUnit.Status.{get_status}
use itzo.RunUnit.State.{UnitConfig, no_unit_config}
use itzo.UnitDir.{
  Codecs, OpenedUnit, get_rootfs, set_image, copy_file_from_host, save_unit_config, open_unit,
  is_unit_exist,
}
use itzo.UnitDir.Pull.{pull_and_extract_image, pull_and_extract_image_lem, run, build_tosi_args}

found : Option Str → Error ⊎ Str
found none = inl Error.not_exist
found (some t) = inr t

store : Call → Map Str → Map Str
store (write_file path t mode) files = insert path t files
store _ files = files

-- Files are kept by their paths, and every call succeeds.
abbrev disk : Os (Map Str)
disk = record {
  call = λ c w. (none, store c w);
  stat = λ path w. inl Error.not_exist;
  lstat = λ path w. inl Error.not_exist;
  readlink = λ path w. inl Error.not_exist;
  read_file = λ path w. found (lookup path w);
  open_file = λ path w. none;
  open_writer = λ path w. none;
}

-- One configuration is known, and its text is `c`.
abbrev saved_config : UnitConfig
saved_config = record no_unit_config { pod_ip = lit "10.0.0.1" }

abbrev codecs : Codecs
codecs = record {
  status = record {
    marshal = λ s. inr s.image;
    unmarshal = λ t. inl (Error.foreign 1);
    write_file = λ t f. (none, f);
  };
  config = record {
    marshal = λ c. inl (Error.foreign 2);
    unmarshal = λ t. (
      some (Error.foreign 2),
      record { user = []; env = []; cmd = []; working_dir = []; entrypoint = []; volumes = [] },
    );
  };
  unit_config = record { marshal = λ c. inr (lit "c"); unmarshal = λ t. (none, saved_config) };
}

disk-keeps :
    (path t : Str) (mode : ℕ) (w : Map Str)
    → (disk.call (write_file path t mode) w).0 ≡ none
    → disk.read_file path (disk.call (write_file path t mode) w).1 ≡ inr t
unfolding store found
disk-keeps path t mode w h = rw (lookup-insert_self path t w) refl

saved : (save_unit_config disk codecs (lit "/u") saved_config []).0 ≡ ok tt
unfolding save_unit_config
saved = refl

abbrev opened : OpenedUnit
opened = record {
  log_pipe = record { unitdir = lit "/u"; pipes = [] };
  directory = lit "/u";
  status_path = lit "/u/status";
  stdin_path = lit "/u/unit-stdin";
  unit = record { name = lit "u"; image = []; config = none; unit_config = no_unit_config };
}

abbrev tosi : List Str → Map Str → Option Error × Map Str
tosi args w = (none, w)

pull_and_extract_image_lem_example :
    pull_and_extract_image disk codecs tosi opened (lit "alpine") (lit "https://r.io") [] (lit "p")
    ≡ (do
      wrap
          (Error.wrapf "setting image for unit: %v" [])
          (set_image disk codecs (lit "alpine") opened)
      run disk codecs tosi (
          build_tosi_args false
            (lit "https://r.io")
            (lit "alpine")
            (get_rootfs opened)
            (join_path (lit "/u" ∷ lit "config" ∷ []))
            []
            (lit "p"))
      copy_file_from_host disk opened (lit "/etc/resolv.conf") true)
pull_and_extract_image_lem_example =
    pull_and_extract_image_lem disk codecs tosi opened (lit "alpine") (lit "https://r.io") []
      (lit "p")

test_opened : (open_unit disk codecs (lit "/") (lit "u") []).0 ≡ ok opened
unfolding open_unit get_status found lookup store make_still_creating_status
test_opened = refl

test_exists : is_unit_exist disk (lit "/") [] [] ≡ false
unfolding is_unit_exist
test_exists = refl
