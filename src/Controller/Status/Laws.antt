-- ===== src/Controller/Status/Laws.antt =====
-- What `GetStatus` reports.
use itzo.Base.{
  suc, ◌≡◌, ◌≢◌, Option-cases, inl, inr, refl, sym, ap, subst, ◌∙◌, true, Option, none, some, List,
  [], ◌∷◌, arith, length, All, Str, lit, lookup, Error,
}
use itzo.Api.{UnitSpec, UnitStatus, make_still_creating_status}
use itzo.Controller.Runtime.{RuntimeService, Reply}
use itzo.Io.{ok, panic}
use itzo.Controller.State.{PodController}
use itzo.Controller.Status.{
  unit_status, init_status, statuses, exited_well, mark_ready, mark_all_ready, get_status,
}

module _ {W : Type 0} (rt : RuntimeService W) where
  length-statuses :
      (of_reply : UnitSpec → Reply → Option UnitStatus) (units : List UnitSpec) (w : W)
      (ss : List UnitStatus)
      → (statuses rt of_reply units w).0 ≡ some ss
      → length ss ≡ length units
  unfolding statuses
  length-statuses of_reply [] w ss h = ground arith
  length-statuses of_reply (unit ∷ units) w [] h = ground arith
  length-statuses of_reply (unit ∷ units) w (s ∷ ss) h =
      ground
        (arith, length-statuses of_reply units (rt.container_status w unit.name unit.image).1 ss)

  length-mark_all_ready : (ss : List UnitStatus) → length (mark_all_ready ss) ≡ length ss
  unfolding mark_all_ready
  length-mark_all_ready [] = refl
  length-mark_all_ready (s ∷ ss) = ap suc (length-mark_all_ready ss)

abbrev pub ReportsCompletion : UnitStatus → Type 0
ReportsCompletion s = exited_well s.state.terminated ≡ true → s.ready ≡ true

mark_ready-ReportsCompletion : (s : UnitStatus) → ReportsCompletion (mark_ready s)
unfolding mark_ready
mark_ready-ReportsCompletion s = ground arith

mark_all_ready-ReportsCompletion :
    (ss : List UnitStatus) → All ReportsCompletion (mark_all_ready ss)
unfolding mark_all_ready
mark_all_ready-ReportsCompletion [] = tt
mark_all_ready-ReportsCompletion (s ∷ ss) =
    (mark_ready-ReportsCompletion s, mark_all_ready-ReportsCompletion ss)

module _ {W : Type 0} (rt : RuntimeService W) (pc : PodController W) where
  get_status-ok :
      {units inits : List UnitStatus}
      → (get_status rt pc).0 ≡ ok (units, inits)
      → (is : List UnitStatus) × ((statuses rt (unit_status rt pc) pc.pod_status.units pc.runtime).0
          ≡ some units)
        × ((statuses rt
              (init_status rt pc)
              pc.pod_status.init_units
              (statuses rt (unit_status rt pc) pc.pod_status.units pc.runtime).1).0
            ≡ some is)
        × (inits ≡ mark_all_ready is)
  unfolding get_status
  get_status-ok h = ground arith

  -- If `GetStatus` returns, then it reports one status for each unit and for each init unit of the
  -- pod, and every init unit that exited with code 0 is reported as ready.
  get_status_complete :
      {units inits : List UnitStatus}
      → (get_status rt pc).0 ≡ ok (units, inits)
      → (length units ≡ length pc.pod_status.units)
        × (length inits ≡ length pc.pod_status.init_units)
        × All ReportsCompletion inits
  unfolding get_status
  get_status_complete {units} {inits} h =
      let (is, u, i, e) = get_status-ok h in
      (
        length-statuses rt (unit_status rt pc) pc.pod_status.units pc.runtime units u,
        ap length e
            ∙ length-mark_all_ready rt is
            ∙ length-statuses rt (init_status rt pc) pc.pod_status.init_units
                (statuses rt (unit_status rt pc) pc.pod_status.units pc.runtime).1 is i,
        subst (All ReportsCompletion) (sym e) (mark_all_ready-ReportsCompletion is),
      )

  module _
      (answers : (w : W) (name image : Str)
        → (rt.container_status w name image).0.status ≢ none) where
    statuses-some :
        (of_reply : UnitSpec → Reply → Option UnitStatus)
        → ((unit : UnitSpec) (reply : Reply) → reply.status ≢ none → of_reply unit reply ≢ none)
        → (units : List UnitSpec) (w : W) → (statuses rt of_reply units w).0 ≢ none
    unfolding statuses
    statuses-some of_reply f [] w = λ e. ground arith
    statuses-some of_reply f (unit ∷ units) w =
        let r = rt.container_status w unit.name unit.image in
        let h = f unit r.0 (answers w unit.name unit.image) in
        let k = statuses-some of_reply f units r.1 in λ e. ground arith

    unit_status-some :
        (unit : UnitSpec) (reply : Reply)
        → reply.status ≢ none
        → unit_status rt pc unit reply ≢ none
    unfolding unit_status
    unit_status-some unit reply h = λ e. ground arith

    init_status-some :
        (unit : UnitSpec) (reply : Reply)
        → reply.status ≢ none
        → init_status rt pc unit reply ≢ none
    unfolding init_status
    init_status-some unit reply h = λ e. ground arith

    get_status-returns :
        (units inits : List UnitStatus) × ((get_status rt pc).0 ≡ ok (units, inits))
    unfolding get_status
    get_status-returns = elim (Option-cases us.0) [
      | inl e ↦
          absurd
            (statuses-some (unit_status rt pc) unit_status-some pc.pod_status.units pc.runtime e)
      | inr (ss, e) ↦ elim (Option-cases is.0) [
        | inl e' ↦
            absurd
              (statuses-some (init_status rt pc) init_status-some pc.pod_status.init_units us.1 e')
        | inr (ts, e') ↦ (ss, mark_all_ready ts, ground arith)
      ]
    ]
      where
        us : Option (List UnitStatus) × W
        us = statuses rt (unit_status rt pc) pc.pod_status.units pc.runtime

        is : Option (List UnitStatus) × W
        is = statuses rt (init_status rt pc) pc.pod_status.init_units us.1

    -- If the runtime never answers with a nil status, then `GetStatus` returns: one status for each
    -- unit and for each init unit of the pod, and every init unit that exited with code 0 is
    -- reported as ready.
    pub get_status_total :
        (units inits : List UnitStatus) × ((get_status rt pc).0 ≡ ok (units, inits))
        × (length units ≡ length pc.pod_status.units)
        × (length inits ≡ length pc.pod_status.init_units)
        × All ReportsCompletion inits
    get_status_total =
        let (units, inits, e) = get_status-returns in
        let c = get_status_complete e in (units, inits, e, c.0, c.1, c.2)

  -- If the runtime answers for the first unit with a nil status, and the unit neither has an
  -- error of the last update nor is restarting, then `GetStatus` panics.
  get_status-panic :
      {unit : UnitSpec} {rest : List UnitSpec}
      → pc.pod_status.units ≡ unit ∷ rest
      → lookup unit.name pc.sync_errors ≡ none
      → lookup unit.name pc.currently_restarting_units ≡ none
      → (rt.container_status pc.runtime unit.name unit.image).0.status ≡ none
      → (get_status rt pc).0 ≡ panic
  unfolding get_status statuses unit_status
  get_status-panic {unit} {rest} e no_error not_restarting nil = ground arith

  -- The status of a unit: the error of the last update goes before everything; an error of the
  -- runtime while the unit restarts is reported as "still creating", so it does not look failed;
  -- else it is the runtime's status.
  pub unit_status_lem :
      (unit : UnitSpec) (reply : Reply)
      → ((failed : UnitStatus)
          → lookup unit.name pc.sync_errors ≡ some failed
          → unit_status rt pc unit reply ≡ some failed)
        × ((e : Error) (image : Str)
            → lookup unit.name pc.sync_errors ≡ none
            → reply.err ≡ some e
            → lookup unit.name pc.currently_restarting_units ≡ some image
            → unit_status rt pc unit reply
              ≡ some (make_still_creating_status unit.name unit.image (lit "ContainerCreating")))
        × (lookup unit.name pc.sync_errors ≡ none
            → reply.err ≡ none
            → unit_status rt pc unit reply ≡ reply.status)
  unfolding unit_status
  unit_status_lem unit reply =
      (λ failed h. ground arith, λ e image h k l. ground arith, λ h k. ground arith)
