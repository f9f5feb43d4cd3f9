-- ===== src/Server/Tests.antt =====
-- The handlers at concrete requests.
use itzo.Base.{
  ℕ, ◌<◌, ◌≡◌, refl, true, false, some, [], ◌∷◌, ◌++◌, Str, lit, pos, inl, inr, ◌⊎◌, arith, str_eq,
}
use itzo.Controller.Samples.{old_spec, new_params, calm, controller}
use itzo.LogBuf.{LogSource, LogEntry, LogBuffer, zero_entry}
use itzo.LogBuf.History.{Holds}
use itzo.LogBuf.Read.{last, wanted}
use itzo.Server.Responses.{get_unit_from_path, get_unit_from_path_lem}
use itzo.Server.Logs.{log_text}
use itzo.Server.Logs.Laws.{IsEnd, log_text-IsEnd}
use itzo.Server.Tail.{Tick, tick, run_log_tailer}
use itzo.Server.Tail.Laws.{Watched, Ended, idle, next, lines, run_log_tailer-Ended}
use itzo.Server.Update.{Network, Server, update_handler}
use itzo.Server.Update.Laws.{
  Queued, IsAddressed, has_address, SameNetwork, update_handler-Queued, update_handler-IsAddressed,
}

abbrev hello : LogEntry
hello = record { timestamp = []; source = LogSource.stdout; line = lit "hello" }

abbrev bye : LogEntry
bye = record { timestamp = []; source = LogSource.stderr; line = lit "bye" }

abbrev one_line : LogBuffer
one_line = record { buf = hello ∷ zero_entry ∷ []; capacity = 2; offset = 1 }

abbrev two_lines : LogBuffer
two_lines = record { buf = hello ∷ bye ∷ []; capacity = 2; offset = 2 }

below_two : (i : ℕ) → i < 2 → (i ≡ 0) ⊎ (i ≡ 1)
below_two i h = grind arith

two_lines-Holds : Holds two_lines (hello ∷ bye ∷ [])
two_lines-Holds = record {
  room = omega arith;
  storage = refl;
  counted = refl;
  at_index = λ i p q. elim (below_two i p) [ inl e ↦ rw e | inr e ↦ rw e ];
}

-- A unit that writes a line while it runs, and another one after the check that finds it stopped.
abbrev while_running : Tick
while_running = record { running = true; before = one_line; after = one_line; writable = true }

abbrev at_the_end : Tick
at_the_end = record { running = false; before = two_lines; after = two_lines; writable = true }

at_the_end-Watched : Watched (hello ∷ []) (tick at_the_end ∷ []) (bye ∷ [])
at_the_end-Watched =
    next (bye ∷ []) [] refl two_lines-Holds (omega arith) two_lines-Holds (omega arith) idle

run_log_tailer-Ended_example :
    Ended (hello ∷ []) (bye ∷ []) (run_log_tailer (lit "u") false (tick at_the_end ∷ []) 1)
run_log_tailer-Ended_example = run_log_tailer-Ended (lit "u") at_the_end-Watched

log_text-IsEnd_example :
    (kept : Str) × (log_text two_lines (record {
      unit_name = lit "u";
      follow = false;
      with_metadata = false;
      line_num = pos 1;
      bytes_num = pos 2;
    })
      ≡ some kept)
    × IsEnd 2 (lines (last (wanted 2 2 1) (hello ∷ bye ∷ []))) kept
log_text-IsEnd_example = log_text-IsEnd 1 2 (lit "u") false two_lines-Holds

get_unit_from_path_lem_example :
    (get_unit_from_path (lit "/rest/v1/logs/" ++ lit "a/b") ≡ lit "a/b")
    × (get_unit_from_path (lit "/rest/v1/attach/" ++ lit "a/b") ≡ lit "a/b")
get_unit_from_path_lem_example = get_unit_from_path_lem (lit "a/b")

abbrev network : Network (Unit {0})
network = record {
  setup_net_namespace = λ ip n. (inr (lit "10.0.0.1", lit "10.0.0.2", lit "pod"), n);
  primary_interface = λ n. inr (lit "eth1");
  ensure_network_agent = λ ip name n. (true, n);
}

abbrev fresh : Server (Unit {0}) (Unit {0})
fresh = record {
  pc = controller tt old_spec;
  net = tt;
  primary_ip = [];
  secondary_ip = [];
  pod_ip = [];
  pod_network_interface = [];
  agent = false;
  last_metric_time = 0;
}

update_handler-Queued_example :
    Queued (inr new_params) fresh (update_handler calm network (lit "POST") (inr new_params) fresh)
update_handler-Queued_example =
    update_handler-Queued calm network (lit "POST") (inr new_params) fresh

update_handler-IsAddressed_example :
    (IsAddressed fresh
      → IsAddressed (update_handler calm network (lit "POST") (inr new_params) fresh).1)
    × (has_address fresh ≡ true
        → SameNetwork fresh (update_handler calm network (lit "POST") (inr new_params) fresh).1)
update_handler-IsAddressed_example =
    update_handler-IsAddressed calm network (lit "POST") (inr new_params) fresh
