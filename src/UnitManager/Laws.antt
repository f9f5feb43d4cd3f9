-- ===== src/UnitManager/Laws.antt =====
-- Which units the table knows after a start, a stop, and the end of a process.
use itzo.Base.{
  ℕ, ◌≡◌, refl, sym, ap, ◌∙◌, subst, true, false, Option, none, some, is_some, List, [], ◌∷◌, ◌++◌,
  ◌==◌, str_eq, Str, Map, lookup, insert, remove, lookup-remove, lookup-insert_self, str_beq_refl,
  Error, ◌⊎◌, inl, inr, split2, map, nat_eq, Bool-cases,
}
use itzo.Api.{UnitSpec, EnvVar, RestartPolicy}
use itzo.Io.{Io, Result, ok, raise, wrap, is_ok}
use itzo.Io.Laws.{Triple, Triple-bind, Triple-wrap}
use itzo.Io.Os.{Os}
use itzo.LogBuf.{LogBuffer, new_log_buffer}
use itzo.UnitDir.{Codecs, OpenedUnit, open_unit}
use itzo.UnitDir.Pipes.{remove_pipes}
use itzo.RunUnit.Identity.{get_env}
use itzo.Itzo.{make_app_env}
use itzo.Utils.EnvList.{add_to_env_list, equals}
use itzo.UnitManager.{
  UnitManager, Processes, merge_env, or_panic, unit_running, get_pid, set_running, delete_running,
  capture_logs, on_world, started, start_opened, start_process, start_unit, kill_running, stop_unit,
  unit_exited,
}

module _ {W : Type 0} where
  -- The two tables.
  abbrev Tables : Map ℕ → Map LogBuffer → UnitManager W → Type 0
  Tables running logs um = (um.running_units ≡ running) × (um.log_buf ≡ logs)

  Triple-on_world :
      {A : Type 0} (running : Map ℕ) (logs : Map LogBuffer) (m : Io W A)
      → Triple (Tables running logs) (on_world m) (λ _. Tables running logs)
  Triple-on_world running logs m = record { at = λ um {a} p q. p }

  Triple-or_panic :
      {A : Type 0} (running : Map ℕ) (logs : Map LogBuffer) (o : Option A)
      → Triple (Tables running logs) (or_panic o) (λ _. Tables running logs)
  unfolding or_panic
  Triple-or_panic running logs none = record { at = λ um {a} p q. p }
  Triple-or_panic running logs (some a) = record { at = λ um {a} p q. p }

  Triple-capture_logs :
      (running : Map ℕ) (logs : Map LogBuffer) (name : Str)
      → Triple
          (Tables running logs)
          (capture_logs name)
          (λ _. Tables running (insert name (new_log_buffer 4096) logs))
  unfolding capture_logs
  Triple-capture_logs running logs name = record {
    at = λ um {a} p q. (p.0, ap (insert name (new_log_buffer 4096)) p.1);
  }

  -- The unit is in the table, with the process that was started.
  abbrev pub Running : Map ℕ → Map LogBuffer → Str → UnitManager W → Type 0
  Running running logs name um =
      (pid : ℕ) × (um.running_units ≡ insert name pid running)
      × (um.log_buf ≡ insert name (new_log_buffer 4096) logs)

module _ {W : Type 0} (os : Os W) (codecs : Codecs) (processes : Processes W) (root_dir : Str) where
  Triple-started :
      (running : Map ℕ) (logs : Map LogBuffer) (u : OpenedUnit) (name : Str) (r : Error ⊎ ℕ)
      → Triple
          (Tables running (insert name (new_log_buffer 4096) logs))
          (started os codecs processes root_dir u name r)
          (λ _. Running running logs name)
  unfolding started set_running
  Triple-started running logs u name (inr pid) = record {
    at = λ um {a} p q. (pid, ap (insert name pid) p.0, p.1);
  }
  Triple-started running logs u name (inl e) =
      Triple-bind (λ _ _. Unit {0}) (on_world (remove_pipes os u.log_pipe)) (λ _. raise e)
        (record { at = λ um {a} p q. tt }) (λ _. record { at = λ um {a} p q. cc })

  Triple-start_unit :
      (running : Map ℕ) (logs : Map LogBuffer) (podname hostname name workingdir netns : Str)
      (command args appenv : List Str) (policy : RestartPolicy)
      → Triple
          (Tables running logs)
          (start_unit os codecs processes root_dir podname hostname name workingdir netns command
            args appenv policy)
          (λ _. Running running logs name)
  unfolding start_unit start_opened
  Triple-start_unit running logs podname hostname name workingdir netns command args appenv policy =
      let logs' = insert name (new_log_buffer 4096) logs in
      Triple-bind (λ _. Tables running logs) (on_world (open_unit os codecs root_dir name)) _
        (Triple-on_world running logs (open_unit os codecs root_dir name))
        (λ u.
          let env = merge_env (get_env u.unit) appenv in
          Triple-bind (λ _. Tables running logs) (or_panic env) _ (Triple-or_panic running logs env)
            (λ merged.
              let start =
                start_process os codecs processes root_dir podname hostname name workingdir netns
                  command args merged policy u in
              Triple-bind (λ _. Tables running logs') (capture_logs name) _
                (Triple-capture_logs running logs name)
                (λ _.
                  Triple-bind (λ _. Tables running logs') (on_world start) _
                    (Triple-on_world running logs' start) (Triple-started running logs u name))))

  -- A unit that is started without an error is in the table of running units with the process that
  -- was started, and has a new log buffer of 4096 lines; the entries of the other units, and their
  -- buffers, are as they were.
  start_unit_lem :
      (podname hostname name workingdir netns : Str) (command args appenv : List Str)
      (policy : RestartPolicy) (um : UnitManager W)
      → (start_unit os codecs processes root_dir podname hostname name workingdir netns command args
          appenv policy um).0
        ≡ ok tt
      → Running um.running_units um.log_buf name
          (start_unit os codecs processes root_dir podname hostname name workingdir netns command
            args appenv policy um).1
  start_unit_lem podname hostname name workingdir netns command args appenv policy um h =
      (Triple-start_unit um.running_units um.log_buf podname hostname name workingdir netns command
          args appenv policy).at
        um (refl, refl) h

  running_units-unit_exited :
      (u : OpenedUnit) (um : UnitManager W)
      → (unit_exited os codecs processes root_dir u um).1.running_units
        ≡ remove u.unit.name um.running_units
  unfolding unit_exited delete_running
  running_units-unit_exited u um = refl

  is_some-Running :
      (running : Map ℕ) (logs : Map LogBuffer) (name : Str) (um : UnitManager W)
      → Running running logs name um
      → unit_running name um ≡ true
  unfolding unit_running
  is_some-Running running logs name um (pid, h, _) =
      ap (λ m. is_some (lookup name m)) h ∙ ap is_some (lookup-insert_self name pid running)

  -- The end of an earlier process of a unit takes the unit's new process out of the table: after a
  -- start without an error the unit is running, but once the goroutine that waited for an earlier
  -- process of the same name has gone on, the unit does not count as running, and has no process.
  pub unit_exited-start_unit :
      (podname hostname workingdir netns : Str) (command args appenv : List Str)
      (policy : RestartPolicy) (earlier : OpenedUnit) (um : UnitManager W)
      → (start_unit os codecs processes root_dir podname hostname earlier.unit.name workingdir netns
          command args appenv policy um).0
        ≡ ok tt
      → (let after =
            (start_unit os codecs processes root_dir podname hostname earlier.unit.name workingdir
              netns command args appenv policy um).1 in
          (unit_running earlier.unit.name after ≡ true)
          × (get_pid earlier.unit.name (unit_exited os codecs processes root_dir earlier after).1
              ≡ none)
          × (unit_running earlier.unit.name
                (unit_exited os codecs processes root_dir earlier after).1
              ≡ false))
  unfolding unit_running get_pid
  unit_exited-start_unit podname hostname workingdir netns command args appenv policy earlier um h =
      let name = earlier.unit.name in
      let after =
        (start_unit os codecs processes root_dir podname hostname name workingdir netns command args
          appenv policy um).1 in
      let gone : lookup name
            (unit_exited os codecs processes root_dir earlier after).1.running_units
          ≡ none =
        ap (lookup name) (running_units-unit_exited earlier after)
        ∙ simp (lookup-remove, str_beq_refl) in
      (
        is_some-Running um.running_units um.log_buf name after
            (start_unit_lem podname hostname name workingdir netns command args appenv policy um h),
        gone,
        ap is_some gone,
      )

  kill-Triple :
      (running : Map ℕ) (logs : Map LogBuffer) (name : Str) (pid : ℕ)
      → Triple
          (Tables running logs)
          (kill_running os codecs processes root_dir name pid)
          (λ _. Tables (remove name running) logs)
  unfolding kill_running delete_running
  kill-Triple running logs name pid =
      let opened = on_world (open_unit os codecs root_dir name) in
      Triple-bind (λ _. Tables running logs) (wrap _ opened) _
        (Triple-wrap _ opened (Triple-on_world running logs (open_unit os codecs root_dir name)))
        (λ u.
          let kill : Io W (Unit {0}) = λ w. (ok tt, (processes.kill pid w).1) in
          Triple-bind (λ _. Tables running logs) (on_world kill) (λ _. delete_running name)
            (Triple-on_world running logs kill)
            (λ _. record { at = λ um {a} p q. (ap (remove name) p.0, p.1) }))

  stop_unit-unknown :
      (name : Str) (um : UnitManager W)
      → lookup name um.running_units ≡ none
      → is_ok (stop_unit os codecs processes root_dir name um).0 ≡ false
  unfolding stop_unit
  stop_unit-unknown name um h = rw (h, stop_unit) refl

  stop_unit-known :
      (name : Str) (pid : ℕ) (um : UnitManager W)
      → lookup name um.running_units ≡ some pid
      → stop_unit os codecs processes root_dir name um
        ≡ kill_running os codecs processes root_dir name pid um
  unfolding stop_unit kill_running
  stop_unit-known name pid um h = rw (h, stop_unit) refl

  stopped :
      (name : Str) (found : Option ℕ) (um : UnitManager W)
      → lookup name um.running_units ≡ found
      → (stop_unit os codecs processes root_dir name um).0 ≡ ok tt
      → (unit_running name um ≡ true)
        × Tables
            (remove name um.running_units)
            um.log_buf
            (stop_unit os codecs processes root_dir name um).1
  unfolding unit_running
  stopped name none um h q =
      let unknown = stop_unit-unknown name um h in let known = ap is_ok q in cc
  stopped name (some pid) um h q =
      let same = stop_unit-known name pid um h in
      (
        ap is_some h,
        subst
            (λ (r : Result (Unit {0}) × UnitManager W).
              Tables (remove name um.running_units) um.log_buf r.1)
            (sym same)
            ((kill-Triple um.running_units um.log_buf name pid).at um (refl, refl)
              (ap (λ r. r.0) (sym same) ∙ q)),
      )

  -- A unit that is stopped without an error was in the table of running units, and no longer is; the
  -- rest of the table and the log buffers, that of this unit included, are as they were.
  stop_unit_lem :
      (name : Str) (um : UnitManager W)
      → (stop_unit os codecs processes root_dir name um).0 ≡ ok tt
      → (unit_running name um ≡ true)
        × ((stop_unit os codecs processes root_dir name um).1.running_units
            ≡ remove name um.running_units)
        × ((stop_unit os codecs processes root_dir name um).1.log_buf ≡ um.log_buf)
  stop_unit_lem name um q =
      let (a, b) = stopped name (lookup name um.running_units) um refl q in (a, b.0, b.1)

-- An entry of a unit's environment has an equals sign.
split2-entry : (key value : Str) → (v : Str) × ((split2 equals (key ++ equals ∷ value)).1 ≡ some v)
unfolding split2
split2-entry [] value = (value, refl)
split2-entry (c ∷ key) value = elim (Bool-cases (c == equals)) [
  | inl h ↦ (key ++ equals ∷ value, simp h)
  | inr h ↦ let (v, e) = split2-entry key value in (v, simp h e)
]

merge_entries :
    (env : List Str) (vars : List EnvVar)
    → (merged : List Str) × (merge_env env
          (map (λ (ev : EnvVar). ev.name ++ equals ∷ ev.value) vars)
        ≡ some merged)
unfolding merge_env
merge_entries env [] = (env, refl)
merge_entries env (ev ∷ vars) =
    let (v, e) = split2-entry ev.name ev.value in
    let key = (split2 equals (ev.name ++ equals ∷ ev.value)).0 in
    let (merged, k) = merge_entries (add_to_env_list env key v true) vars in
    (merged, rw (e, merge_env) k)

-- The variables of a specification can be put over those of any image: the environment that
-- `makeAppEnv` makes of a unit never makes `StartUnit` read past the end of a split entry, whatever
-- the names and values are.
merge_env-make_app_env :
    (env : List Str) (unit : UnitSpec)
    → (merged : List Str) × (merge_env env (make_app_env unit) ≡ some merged)
unfolding make_app_env
merge_env-make_app_env env unit = merge_entries env unit.env
