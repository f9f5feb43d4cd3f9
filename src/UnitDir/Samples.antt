-- ===== src/UnitDir/Samples.antt =====
-- An empty file system and an opened unit, for the tests.
use itzo.Base.{none, [], Str, lit, Error, inl, inr}
use itzo.Io.Os.{Os}
use itzo.RunUnit.State.{no_unit_config}
use itzo.UnitDir.{Codecs, OpenedUnit}

abbrev pub empty_disk : Os (Unit {0})
empty_disk = record {
  call = λ c w. (none, tt);
  stat = λ path w. inl Error.not_exist;
  lstat = λ path w. inl Error.not_exist;
  readlink = λ path w. inl Error.not_exist;
  read_file = λ path w. inl Error.not_exist;
  open_file = λ path w. none;
  open_writer = λ path w. none;
}

abbrev pub codecs : Codecs
codecs = record {
  status = record {
    marshal = λ s. inr [];
    unmarshal = λ t. inl (Error.foreign 1);
    write_file = λ t f. (none, f);
  };
  config = record {
    marshal = λ c. inr [];
    unmarshal = λ t. (
      none,
      record { user = []; env = []; cmd = []; working_dir = []; entrypoint = []; volumes = [] },
    );
  };
  unit_config = record { marshal = λ c. inr []; unmarshal = λ t. (none, no_unit_config) };
}

abbrev pub name : Str
name = lit "a"

abbrev pub earlier : OpenedUnit
earlier = record {
  log_pipe = record { unitdir = lit "/a"; pipes = [] };
  directory = lit "/a";
  status_path = lit "/a/status";
  stdin_path = lit "/a/unit-stdin";
  unit = record { name = name; image = []; config = none; unit_config = no_unit_config };
}
