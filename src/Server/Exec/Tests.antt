-- ===== src/Server/Exec/Tests.antt =====
-- A command inside of a unit that runs as root.
use itzo.Base.{◌≡◌, ◌↔◌, refl, ◌<◌, length, false, some, [], ◌∷◌, ◌++◌, lit, pos, inr}
use itzo.Io.{ok}
use itzo.UnitDir.{open_unit, get_rootfs}
use itzo.UnitDir.Samples.{empty_disk, codecs}
use itzo.UnitRun.{ensure_default_environ}
use itzo.RunUnit.Identity.{get_user}
use itzo.Utils.Passwd.{new_passwd_user_lookup}
use itzo.Controller.Samples.{calm, controller, old_spec}
use itzo.Controller.Runtime.{RuntimeService}
use itzo.Controller.State.{PodController}
use itzo.Controller.Status.{get_unit_name}
use itzo.Server.Exec.{ExecParams, Tools, Command, nsenter_cmd, enter_unit, command_in, exec_command}
use itzo.Server.Exec.Laws.{RunsAs, exec_command-RunsAs}

abbrev params : ExecParams
params = record {
  pod_name = lit "pod";
  unit_name = lit "web";
  command = lit "ls" ∷ [];
  skip_ns_enter = false;
}

abbrev busy : RuntimeService (Unit {0})
busy = record calm { get_pid = λ w name. some 7 }

abbrev tools : Tools
tools = record {
  atoi = λ t. inr (pos 0);
  parse_int = λ t. inr (pos 0);
  parse_passwd_file = λ path. inr [];
  parse_group_file = λ path. inr [];
  environ = λ pid. inr (lit "TERM=linux" ∷ []);
}

abbrev pc : PodController (Unit {0})
pc = controller tt old_spec

abbrev entering : Command
entering = record {
  args = nsenter_cmd 7 0 0 ++ lit "ls" ∷ [];
  env = ensure_default_environ (lit "TERM=linux" ∷ []) (lit "pod") (lit "/");
}

test_exec_command :
    (exec_command empty_disk codecs busy tools (lit "/") pc params tt).0 ≡ ok entering
unfolding exec_command enter_unit command_in open_unit get_unit_name new_passwd_user_lookup
    get_rootfs get_user lit
test_exec_command = refl

exec_command-RunsAs_example :
    ((exec_command empty_disk codecs busy tools (lit "/") pc params tt).0 ≡ ok entering) ↔ (
      (0 < length params.command)
      × RunsAs empty_disk codecs busy tools (lit "/") pc params tt entering)
exec_command-RunsAs_example =
    exec_command-RunsAs empty_disk codecs busy tools (lit "/") pc params tt entering
