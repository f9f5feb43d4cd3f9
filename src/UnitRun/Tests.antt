-- ===== src/UnitRun/Tests.antt =====
-- `Run` on a host without drivers, and its theorem there.
use itzo.Base.{none, some, [], lit, Error, inl, inr}
use itzo.Io.{ok}
use itzo.Mount.{Mounter, os_mounter}
use itzo.Utils.Users.{UserLookup}
use itzo.UnitDir.Samples.{empty_disk, codecs, earlier}
use itzo.UnitRun.{Host}
use itzo.UnitRun.Flow.{run}
use itzo.UnitRun.Flow.Laws.{Told, run-Told}

abbrev no_users : UserLookup
no_users = record {
  lookup = λ s. inl (Error.foreign 1);
  lookup_id = λ s. inl (Error.foreign 1);
  lookup_group = λ s. inl (Error.foreign 1);
  lookup_group_id = λ s. inl (Error.foreign 1);
}

-- A host that puts no process into a control group.
abbrev bare_host : Host (Unit {0})
bare_host = record {
  new_cgroup = λ path w. (none, w);
  add_to_cgroup = λ w. (some (Error.foreign 2), w);
  delete_cgroup = λ w. w;
  initialize_gpu = λ path w. (none, w);
  atoi = λ s. inl (Error.foreign 3);
  users = no_users;
  environ = λ w. [];
  tweak_capabilities = λ c. inr [];
}

abbrev small_mounter : Mounter (Unit {0})
small_mounter = os_mounter empty_disk (λ volume. []) 8 (lit "/")

run-Told_example :
    Told empty_disk codecs
      (λ e. lit "error")
      bare_host
      small_mounter
      earlier
      (λ ready s. (ok tt, s))
      (run empty_disk codecs
        (λ e. lit "error")
        bare_host
        small_mounter
        earlier
        (λ ready s. (ok tt, s))
        (lit "pod")
        []
        []
        (record { world = tt; status_path = [] }))
run-Told_example =
    run-Told empty_disk codecs (λ e. lit "error") bare_host small_mounter earlier
      (λ ready s. (ok tt, s)) (lit "pod") [] [] (record { world = tt; status_path = [] })
