-- ===== src/Controller/Update/Restart.antt =====
-- The calls of the runtime that `RestartPod` makes.
use itzo.Base.{◌≡◌, refl, sym, ap, ◌∙◌, subst, Bool, List, [], ◌∷◌, ◌++◌, arith}
use itzo.Api.{UnitSpec, PodSpec, PodPhase}
use itzo.Io.{Result, ok, get, ◌>>=◌, ◌>>◌, for_each}
use itzo.Io.Laws.{bind-ok}
use itzo.Controller.Runtime.{
  RuntimeService, traced, Call, stop_sandbox, remove_sandbox, run_sandbox,
}
use itzo.Controller.State.{PodController, Exec}
use itzo.Controller.Update.{
  create_container, remove_container, stop_pod_sandbox, remove_pod_sandbox, run_pod_sandbox,
  restart_pod, count_restart, set_phase, use_image_overlay_rootfs,
}
use itzo.Controller.Update.Calls.{
  calls, overlay, deletions, creations, Made, Made-trans, delete_all-Made, create_all-Made,
  run_pod_sandbox-Made,
}

-- A method that makes these calls, which may depend on the state that it leaves, if it returns
-- without an error and the overlay is `b`.
record Does {W A : Type 0} (b : Bool) (cs : PodController (W × List Call) → List Call)
    (m : Exec (W × List Call) A) : Type 0 where
  at :
      (pc : PodController (W × List Call)) {a : A}
      → overlay pc ≡ b
      → (m pc).0 ≡ ok a
      → Made (cs (m pc).1) pc (m pc).1

module _ {W A B : Type 0} {b : Bool} where
  Does-bind :
      (cs : List Call) (ds : PodController (W × List Call) → List Call) (m : Exec (W × List Call) A)
      (f : A → Exec (W × List Call) B)
      → Does b (λ _. cs) m
      → ((a : A) → Does b ds (f a))
      → Does b (λ pc. cs ++ ds pc) (m >>= f)
  Does-bind cs ds m f h k = record {
    at = λ pc {a} o q.
        let (a', ran, same) = bind-ok m f pc q in
        let first = h.at pc o ran in
        let second =
          (k a').at (m pc).1 (ap use_image_overlay_rootfs first.annotations ∙ o)
            (ap (λ r. r.0) (sym same) ∙ q) in
        subst (λ (r : Result B × PodController (W × List Call)). Made (cs ++ ds r.1) pc r.1)
          (sym same) (Made-trans cs (ds (f a' (m pc).1).1) first second);
  }

module _ {W : Type 0} (rt : RuntimeService W) (b : Bool) where
  Does-stop :
      (status : PodSpec) → Does b (λ _. stop_sandbox ∷ []) (stop_pod_sandbox (traced rt) status)
  unfolding stop_pod_sandbox
  Does-stop status = record { at = λ pc o q. ground arith }

  Does-remove :
      (status : PodSpec) → Does b (λ _. remove_sandbox ∷ []) (remove_pod_sandbox (traced rt) status)
  unfolding remove_pod_sandbox
  Does-remove status = record { at = λ pc o q. ground arith }

  Does-run : Does b (λ _. run_sandbox ∷ []) (run_pod_sandbox (traced rt))
  Does-run = record { at = λ pc {a} o q. run_pod_sandbox-Made rt b pc q }

  Does-delete_all :
      (units : List UnitSpec)
      → Does b (λ _. deletions units) (for_each units (remove_container (traced rt)))
  Does-delete_all units = record { at = λ pc {a} o q. delete_all-Made rt b units pc o q }

  create_container-spec :
      (unit : UnitSpec) (pc : PodController (W × List Call))
      → (create_container (traced rt) unit pc).1.spec ≡ pc.spec
  unfolding create_container
  create_container-spec unit pc = ground arith

  create_all-spec :
      (units : List UnitSpec) (pc : PodController (W × List Call))
      → (for_each units (create_container (traced rt)) pc).1.spec ≡ pc.spec
  unfolding for_each
  create_all-spec [] pc = refl
  create_all-spec (unit ∷ units) pc = ground (
    arith,
    create_container-spec unit pc,
    create_all-spec units (create_container (traced rt) unit pc).1,
  )

  abbrev counting : Exec (W × List Call) (Unit {0})
  counting = do count_restart; set_phase PodPhase.dispatching

  abbrev creating : Exec (W × List Call) (Unit {0})
  creating = do pc ← get; for_each pc.spec.units (create_container (traced rt)); counting

  counted :
      (cs : List UnitSpec → List Call) (pc s : PodController (W × List Call))
      → Made (cs s.spec.units) pc s
      → Made (cs (counting s).1.spec.units) pc (counting s).1
  unfolding count_restart set_phase
  counted cs pc s h = record { made = h.made; annotations = h.annotations }

  Does-creating : Does b (λ pc. creations b pc.spec.units) creating
  Does-creating = record {
    at = λ pc {a} o q.
        let units = pc.spec.units in
        let create = for_each units (create_container (traced rt)) in
        let (_, ran, same) = bind-ok create (λ _. counting) pc q in
        let mid = (create pc).1 in
        let made : Made (creations b mid.spec.units) pc mid =
          subst (λ (spec : PodSpec). Made (creations b spec.units) pc mid)
            (sym (create_all-spec units pc)) (create_all-Made rt b units pc o ran) in
        subst
          (λ (r : Result (Unit {0}) × PodController (W × List Call)).
            Made (creations b r.1.spec.units) pc r.1)
          (sym same) (counted (creations b) pc mid made);
  }

  Does-restart_pod :
      (status : PodSpec)
      → Does b
          (λ pc.
            deletions status.units
            ++ stop_sandbox ∷ remove_sandbox ∷ run_sandbox ∷ creations b pc.spec.units)
          (restart_pod (traced rt) status)
  unfolding restart_pod
  Does-restart_pod status =
      Does-bind (deletions status.units) _ _ _ (Does-delete_all status.units) (λ _.
        Does-bind (stop_sandbox ∷ []) _ _ _ (Does-stop status) (λ _.
          Does-bind (remove_sandbox ∷ []) _ _ _ (Does-remove status) (λ _.
            Does-bind (run_sandbox ∷ []) (λ pc. creations b pc.spec.units) _ _ Does-run
              (λ _. Does-creating))))

module _ {W : Type 0} (rt : RuntimeService W) (pc : PodController (W × List Call)) where
  -- A pod that is restarted without an error made exactly these calls of the runtime: the containers
  -- of the units of its status are deleted, in their order, the sandbox is stopped, removed and run,
  -- and then the containers of the units of its specification, as running the sandbox left it, are created,
  -- in their order and with the overlay that the annotations of the previous update ask for.
  pub restart_pod-calls :
      (status : PodSpec)
      → (restart_pod (traced rt) status pc).0 ≡ ok tt
      → calls (restart_pod (traced rt) status pc).1
        ≡ calls pc
          ++ (deletions status.units
              ++ stop_sandbox
                ∷ remove_sandbox
                ∷ run_sandbox
                ∷ creations (overlay pc) (restart_pod (traced rt) status pc).1.spec.units)
  restart_pod-calls status q = ((Does-restart_pod rt (overlay pc) status).at pc refl q).made
