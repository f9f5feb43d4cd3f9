-- ===== src/RunUnit/Status/Laws.antt =====
-- Reading back what the operations on the status file have written.
use itzo.Base.{Option, none, Str, inr, ℤ, ◌≡◌, refl, ap, if◌then◌else◌, is_some}
use itzo.Api.{UnitStatus, UnitState}
use itzo.RunUnit.State.{Files, StatusFile, text, RunnableUnit}
use itzo.RunUnit.Status.{get_status, set_status, change_status, set_state, with_state, new_count}

-- encoding/json gives the status back that it was given, and the file system keeps its text.
abbrev pub Saves : Files → UnitStatus → Type 0
Saves fs s =
    (t : Str) × (fs.marshal s ≡ inr t)
    × (fs.unmarshal t ≡ inr s)
    × ((file : StatusFile) → fs.write_file t file ≡ (none, text t))

module _ (fs : Files) (u : RunnableUnit) where
  set_status-eq :
      (s : UnitStatus) (file : StatusFile) (k : Saves fs s)
      → set_status fs u s file ≡ (none, text k.0)
  unfolding set_status
  set_status-eq s file k = rw (k.1, k.3 file, set_status) refl

  change_status-eq :
      (f : UnitStatus → UnitStatus) (file : StatusFile) (s : UnitStatus)
      → get_status fs u file ≡ inr s
      → (k : Saves fs (f s)) → change_status fs u f file ≡ (none, text k.0)
  unfolding change_status
  change_status-eq f file s h k = rw (h, change_status) (set_status-eq (f s) file k)

  get_status-text :
      (s : UnitStatus) (t : Str) → fs.unmarshal t ≡ inr s → get_status fs u (text t) ≡ inr s
  unfolding get_status
  get_status-text s t h = h

  pub change_status-get_status :
      (f : UnitStatus → UnitStatus) (file : StatusFile) (s : UnitStatus)
      → get_status fs u file ≡ inr s
      → Saves fs (f s)
      → ((change_status fs u f file).0 ≡ none)
        × (get_status fs u (change_status fs u f file).1 ≡ inr (f s))
  change_status-get_status f file s h k =
      let e = change_status-eq f file s h k in
      (ap (λ r. r.0) e, rw e (get_status-text (f s) k.0 k.2))

  -- On a status file that reads as `s`, where the new status can be saved: `SetState` succeeds, and
  -- the status then read has the new state and keeps the name, the image, the readiness and the
  -- start; a terminated state is also its last termination, any other state keeps the last one; and
  -- the count of restarts stays unless a number that is not negative is given for it.
  set_state-get_status :
      (state : UnitState) (restarts : Option ℤ) (file : StatusFile) (s : UnitStatus)
      → get_status fs u file ≡ inr s
      → Saves fs (with_state state restarts s)
      → ((set_state fs u state restarts file).0 ≡ none)
        × ((s' : UnitStatus) × (get_status fs u (set_state fs u state restarts file).1 ≡ inr s')
            × (s'.state ≡ state)
            × (s'.name ≡ s.name)
            × (s'.image ≡ s.image)
            × (s'.ready ≡ s.ready)
            × (s'.started ≡ s.started)
            × (s'.last_termination_state
                ≡ (if is_some state.terminated then state else s.last_termination_state))
            × (s'.restart_count ≡ new_count s.restart_count restarts))
  unfolding set_state with_state
  set_state-get_status state restarts file s h k =
      let c = change_status-get_status (with_state state restarts) file s h k in
      (c.0, (with_state state restarts s, c.1, refl, refl, refl, refl, refl, refl, refl))
