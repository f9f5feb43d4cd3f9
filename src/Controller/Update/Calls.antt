-- ===== src/Controller/Update/Calls.antt =====
-- The calls of the runtime that an update makes, in their order.
use itzo.Base.{
  ◌≡◌, refl, sym, ap, ◌∙◌, subst, Bool, List, [], ◌∷◌, ◌++◌, append-nil, append_assoc, arith, map,
  none, Str, Map,
}
use itzo.Api.{UnitSpec, PodSpec, RegistryCredentials}
use itzo.Controller.Runtime.{RuntimeService, traced, Call, create, delete, run_sandbox}
use itzo.Io.{ok, for_each}
use itzo.Io.Laws.{bind-ok, for_each-ok}
use itzo.Controller.State.{PodController, Exec}
use itzo.Controller.Update.{
  create_container, remove_container, run_pod_sandbox, create_pod, use_image_overlay_rootfs,
}

-- The calls of a traced runtime so far.
abbrev pub calls : {W : Type 0} → PodController (W × List Call) → List Call
calls pc = pc.runtime.1

abbrev pub overlay : {W : Type 0} → PodController W → Bool
overlay pc = use_image_overlay_rootfs pc.annotations

abbrev pub deletions : List UnitSpec → List Call
deletions units = map (λ u. delete u.name) units

abbrev pub creations : Bool → List UnitSpec → List Call
creations b units = map (λ u. create u.name b) units

-- From `a` to `b` these calls were made.
pub record Made {W : Type 0} (cs : List Call) (a b : PodController (W × List Call)) : Type 0 where
  pub made : calls b ≡ calls a ++ cs
  pub annotations : b.annotations ≡ a.annotations

module _ {W : Type 0} where
  pub Made-nil : (a : PodController (W × List Call)) → Made [] a a
  Made-nil a = record { made = sym (append-nil (calls a)); annotations = refl }

  pub Made-trans :
      (cs ds : List Call) {a b c : PodController (W × List Call)}
      → Made cs a b
      → Made ds b c
      → Made (cs ++ ds) a c
  Made-trans cs ds {a} h k = record {
    made = k.made ∙ rw h.made (append_assoc (calls a) cs ds);
    annotations = k.annotations ∙ h.annotations;
  }

  -- A loop whose rounds each make one call.
  for_each-Made :
      {A : Type 0} (call : A → Call) (body : A → Exec (W × List Call) (Unit {0})) (b : Bool)
      → ((x : A) (pc : PodController (W × List Call))
          → overlay pc ≡ b
          → (body x pc).0 ≡ ok tt
          → Made (call x ∷ []) pc (body x pc).1)
      → (xs : List A) (pc : PodController (W × List Call)) → overlay pc ≡ b
      → (for_each xs body pc).0 ≡ ok tt
      → Made (map call xs) pc (for_each xs body pc).1
  for_each-Made call body b one [] pc o h = unfold for_each in Made-nil pc
  for_each-Made call body b one (x ∷ xs) pc o h =
      let (first, same) = for_each-ok x xs body pc h in
      let next = one x pc o first in
      subst (λ r. Made (call x ∷ map call xs) pc r.1) (sym same)
        (Made-trans (call x ∷ []) (map call xs) next (
          for_each-Made call body b one xs (body x pc).1
            (ap use_image_overlay_rootfs next.annotations ∙ o) (ap (λ r. r.0) (sym same) ∙ h)))

module _ {W : Type 0} (rt : RuntimeService W) (b : Bool) where
  create_container-Made :
      (unit : UnitSpec) (pc : PodController (W × List Call))
      → overlay pc ≡ b
      → (create_container (traced rt) unit pc).0 ≡ ok tt
      → Made (create unit.name b ∷ []) pc (create_container (traced rt) unit pc).1
  unfolding create_container
  create_container-Made unit pc o h = ground arith

  remove_container-Made :
      (unit : UnitSpec) (pc : PodController (W × List Call))
      → overlay pc ≡ b
      → (remove_container (traced rt) unit pc).0 ≡ ok tt
      → Made (delete unit.name ∷ []) pc (remove_container (traced rt) unit pc).1
  unfolding remove_container
  remove_container-Made unit pc o h = ground arith

  pub create_all-Made :
      (units : List UnitSpec) (pc : PodController (W × List Call))
      → overlay pc ≡ b
      → (for_each units (create_container (traced rt)) pc).0 ≡ ok tt
      → Made (creations b units) pc (for_each units (create_container (traced rt)) pc).1
  create_all-Made =
      for_each-Made (λ u. create u.name b) (create_container (traced rt)) b create_container-Made

  pub delete_all-Made :
      (units : List UnitSpec) (pc : PodController (W × List Call))
      → overlay pc ≡ b
      → (for_each units (remove_container (traced rt)) pc).0 ≡ ok tt
      → Made (deletions units) pc (for_each units (remove_container (traced rt)) pc).1
  delete_all-Made =
      for_each-Made (λ u. delete u.name) (remove_container (traced rt)) b remove_container-Made

  spec-run_pod_sandbox :
      (pc : PodController (W × List Call))
      → (run_pod_sandbox (traced rt) pc).1.spec ≡ (rt.run_pod_sandbox pc.runtime.0 pc.spec).1
  unfolding run_pod_sandbox
  spec-run_pod_sandbox pc = ground arith

  pub run_pod_sandbox-Made :
      (pc : PodController (W × List Call))
      → (run_pod_sandbox (traced rt) pc).0 ≡ ok tt
      → Made (run_sandbox ∷ []) pc (run_pod_sandbox (traced rt) pc).1
  unfolding run_pod_sandbox
  run_pod_sandbox-Made pc h = ground arith

module _ {W : Type 0} (rt : RuntimeService W) (pc : PodController (W × List Call)) where
  -- A pod that is created without an error made exactly these calls of the runtime: the sandbox is
  -- run, and then the containers of the units of its specification are created, in their order and
  -- with the overlay that the annotations of the previous update ask for. No container of an init
  -- unit is created.
  pub create_pod-calls :
      (create_pod (traced rt) pc).0 ≡ ok tt
      → calls (create_pod (traced rt) pc).1
        ≡ calls pc
          ++ run_sandbox ∷ creations (overlay pc) (rt.run_pod_sandbox pc.runtime.0 pc.spec).1.units
  unfolding create_pod
  create_pod-calls h =
      let (_, ran, same) = bind-ok (run_pod_sandbox (traced rt)) _ pc h in
      let first = run_pod_sandbox-Made rt (overlay pc) pc ran in
      let mid = (run_pod_sandbox (traced rt) pc).1 in
      let rest =
        create_all-Made rt (overlay pc) mid.spec.units mid
          (ap use_image_overlay_rootfs first.annotations) (ap (λ r. r.0) (sym same) ∙ h) in
      ap (λ r. calls r.1) same
      ∙ (Made-trans (run_sandbox ∷ []) (creations (overlay pc) mid.spec.units) first rest).made
      ∙ ap (λ spec. calls pc ++ run_sandbox ∷ creations (overlay pc) spec.units)
          (spec-run_pod_sandbox rt (overlay pc) pc)

module _ {W : Type 0} (rt : RuntimeService W)
    (runs : (w : W) (spec : PodSpec) → (rt.run_pod_sandbox w spec).0 ≡ none)
    (creates : (w : W) (unit : UnitSpec) (spec : PodSpec) (pod_name : Str)
        (all_creds : Map RegistryCredentials) (b : Bool)
      → (rt.create_container w unit spec pod_name all_creds b).0.err ≡ none) where
  create_container-succeeds :
      (unit : UnitSpec) (pc : PodController W) → (create_container rt unit pc).0 ≡ ok tt
  unfolding create_container
  create_container-succeeds unit pc =
      simp (creates pc.runtime unit pc.spec pc.pod_name pc.all_creds (overlay pc))

  create_all-succeeds :
      (units : List UnitSpec) (pc : PodController W)
      → (for_each units (create_container rt) pc).0 ≡ ok tt
  unfolding for_each
  create_all-succeeds [] pc = refl
  create_all-succeeds (unit ∷ units) pc =
      let h = create_container-succeeds unit pc in
      let k = create_all-succeeds units (create_container rt unit pc).1 in ground arith

  run_pod_sandbox-succeeds : (pc : PodController W) → (run_pod_sandbox rt pc).0 ≡ ok tt
  unfolding run_pod_sandbox
  run_pod_sandbox-succeeds pc = simp (runs pc.runtime pc.spec)

  -- If the runtime runs every sandbox and creates every container without an error, then the pod is
  -- created without one.
  create_pod_total : (pc : PodController W) → (create_pod rt pc).0 ≡ ok tt
  unfolding create_pod
  create_pod_total pc =
      simp (run_pod_sandbox-succeeds pc) (create_all-succeeds _ (run_pod_sandbox rt pc).1)
