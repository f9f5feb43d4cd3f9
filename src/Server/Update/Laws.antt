-- ===== src/Server/Update/Laws.antt =====
-- What an update request does to the queue of the controller and to the addresses of the pod.
use itzo.Base.{
  ◌≡◌, refl, subst, ◌∙◌, Bool, true, false, ◌&&◌, not, Option, none, some, [], ◌∷◌, ◌++◌, ◌==◌,
  str_eq, str_beq, Str, lit, length, nat_eq, Error, ◌⊎◌, inl, inr, arith, Bool-cases,
}
use itzo.Api.{PodParameters, is_host_network}
use itzo.Controller.Runtime.{RuntimeService}
use itzo.Controller.State.{PodController}
use itzo.Controller.Loop.{update_pod, spec_chan_size}
use itzo.Server.Responses.{Response, answered}
use itzo.Server.Update.{
  Network, Server, use_network, setup_result, ensure_network, ensure_agent, submit, after_network,
  post_update, update_handler,
}

-- A response with the status 200.
abbrev pub is_success : Response → Bool
is_success (answered text) = true
is_success _ = false

module _ {W N : Type 0} where
  -- One address of the pod, which the controller knows too if the pod has a network of its own.
  abbrev pub IsAddressed : Server W N → Type 0
  IsAddressed s =
      (s.pod_ip ≡ s.primary_ip) ⊎ ((s.pod_ip ≡ s.secondary_ip) × (s.pc.pod_ip ≡ s.secondary_ip))

  abbrev pub has_address : Server W N → Bool
  has_address s = not (str_beq s.primary_ip [] && str_beq s.secondary_ip [])

  pub record SameNetwork (s t : Server W N) : Type 0 where
    pub primary : t.primary_ip ≡ s.primary_ip
    pub secondary : t.secondary_ip ≡ s.secondary_ip
    pub pod : t.pod_ip ≡ s.pod_ip
    pub interface : t.pod_network_interface ≡ s.pod_network_interface
    pub controller : t.pc.pod_ip ≡ s.pc.pod_ip
    pub namespace : t.pc.net_ns ≡ s.pc.net_ns

  -- What a part of the handler keeps.
  abbrev Kept : Server W N → Server W N → Type 0
  Kept s t = (IsAddressed s → IsAddressed t) × (has_address s ≡ true → SameNetwork s t)

  SameNetwork-refl : (s : Server W N) → SameNetwork s s
  SameNetwork-refl s = record {
    primary = refl;
    secondary = refl;
    pod = refl;
    interface = refl;
    controller = refl;
    namespace = refl;
  }

  SameNetwork-trans : {s t u : Server W N} → SameNetwork s t → SameNetwork t u → SameNetwork s u
  SameNetwork-trans p q = record {
    primary = q.primary ∙ p.primary;
    secondary = q.secondary ∙ p.secondary;
    pod = q.pod ∙ p.pod;
    interface = q.interface ∙ p.interface;
    controller = q.controller ∙ p.controller;
    namespace = q.namespace ∙ p.namespace;
  }

  SameNetwork-IsAddressed : {s t : Server W N} → SameNetwork s t → IsAddressed s → IsAddressed t
  SameNetwork-IsAddressed p a = ground arith

  SameNetwork-Kept : {s t : Server W N} → SameNetwork s t → Kept s t
  SameNetwork-Kept p = (SameNetwork-IsAddressed p, λ h. p)

  -- With a success the parameters wait behind the others; else the queue is as before.
  abbrev pub Queued : Error ⊎ PodParameters → Server W N → Response × Server W N → Type 0
  Queued body s r =
      ((params : PodParameters) × (body ≡ inr params)
        × (is_success r.0 ≡ true)
        × (r.1.pc.update_chan ≡ s.pc.update_chan ++ params ∷ []))
      ⊎ ((is_success r.0 ≡ false) × (r.1.pc.update_chan ≡ s.pc.update_chan))

module _ {W N : Type 0} (rt : RuntimeService W) (network : Network N) where
  submit-SameNetwork :
      (params : PodParameters) (s : Server W N) → SameNetwork s (submit rt network params s).1
  unfolding submit update_pod
  submit-SameNetwork params s = ground arith

  submit-Queued :
      (params : PodParameters) (s : Server W N) → Queued (inr params) s (submit rt network params s)
  unfolding submit update_pod
  submit-Queued params s = elim (Bool-cases (length s.pc.update_chan == spec_chan_size)) [
    | inl full ↦ rw full (inr (refl, refl))
    | inr room ↦ rw room (inl (params, refl, refl, refl))
  ]

  ensure_agent-pc : (name : Str) (s : Server W N) → (ensure_agent rt network name s).pc ≡ s.pc
  unfolding ensure_agent
  ensure_agent-pc name s = ground arith

  ensure_agent-SameNetwork :
      (name : Str) (s : Server W N) → SameNetwork s (ensure_agent rt network name s)
  unfolding ensure_agent
  ensure_agent-SameNetwork name s = ground arith

  setup_result-Kept :
      (params : PodParameters) (r : (Error ⊎ (Str × Str × Str)) × N) (s : Server W N)
      → (IsAddressed s → IsAddressed (setup_result rt network params r s).1)
        × ((setup_result rt network params r s).1.pc.update_chan ≡ s.pc.update_chan)
  unfolding setup_result
  setup_result-Kept params (inl e, n) s = (λ a. a, refl)
  setup_result-Kept params (inr (primary, secondary, pod_ns), n) s =
      by_mode (is_host_network params.spec.security_context)
    where
      by_mode :
          (host : Bool)
          → (IsAddressed s
              → IsAddressed
                  (use_network rt network host primary secondary pod_ns (record s { net = n })))
            × ((use_network rt network host primary secondary pod_ns
                  (record s { net = n })).pc.update_chan
                ≡ s.pc.update_chan)
      by_mode true = (λ a. inl refl, refl)
      by_mode false = (λ a. inr (refl, refl), refl)

  ensure_network-Kept :
      (params : PodParameters) (s : Server W N)
      → Kept s (ensure_network rt network params s).1
        × ((ensure_network rt network params s).1.pc.update_chan ≡ s.pc.update_chan)
  unfolding ensure_network
  ensure_network-Kept params s =
      elim (Bool-cases (str_beq s.primary_ip [] && str_beq s.secondary_ip [])) [
        | inl none_yet ↦
            let k = setup_result-Kept params (network.setup_net_namespace params.pod_ip s.net) s in
            rw none_yet ((k.0, λ h. cc), k.1)
        | inr there ↦ rw there ((λ a. a, λ h. SameNetwork-refl s), refl)
      ]

  after_network-Kept :
      (params : PodParameters) (r : Option Error × Server W N)
      → SameNetwork r.1 (after_network rt network params r).1
        × Queued (inr params) r.1 (after_network rt network params r)
  unfolding after_network
  after_network-Kept params (some e, s) = (SameNetwork-refl s, inr (refl, refl))
  after_network-Kept params (none, s) =
      let t = ensure_agent rt network params.node_name s in
      (
        SameNetwork-trans (ensure_agent-SameNetwork params.node_name s)
            (submit-SameNetwork params t),
        subst
            (λ (pc : PodController W).
              Queued (inr params) (record s { pc = pc }) (submit rt network params t))
            (ensure_agent-pc params.node_name s) (submit-Queued params t),
      )

  post_update-Kept :
      (body : Error ⊎ PodParameters) (s : Server W N)
      → Kept s (post_update rt network body s).1 × Queued body s (post_update rt network body s)
  unfolding post_update
  post_update-Kept (inl e) s = (SameNetwork-Kept (SameNetwork-refl s), inr (refl, refl))
  post_update-Kept (inr params) s =
      let (kept, chan) = ensure_network-Kept params s in
      let (same, queued) = after_network-Kept params (ensure_network rt network params s) in
      (
        (λ a. SameNetwork-IsAddressed same (kept.0 a), λ h. SameNetwork-trans (kept.1 h) same),
        rw chan at queued,
      )

  update_handler-both :
      (method : Str) (body : Error ⊎ PodParameters) (s : Server W N)
      → Kept s (update_handler rt network method body s).1
        × Queued body s (update_handler rt network method body s)
  unfolding update_handler
  update_handler-both method body s = elim (Bool-cases (method == lit "POST")) [
    | inl h ↦ rw h (post_update-Kept body s)
    | inr h ↦ rw h (SameNetwork-Kept (SameNetwork-refl s), inr (refl, refl))
  ]

  -- An update request ends in one of two ways. It is answered with success, and then the parameters
  -- in its body are the last in the controller's queue, behind those that waited; or with an error,
  -- wherever that arose, and then the queue is as it was.
  pub update_handler-Queued :
      (method : Str) (body : Error ⊎ PodParameters) (s : Server W N)
      → Queued body s (update_handler rt network method body s)
  update_handler-Queued method body s = (update_handler-both method body s).1

  -- A server whose pod has the primary address, or the secondary one and the controller knows it,
  -- stays so by an update request, whatever the request and the network do; once it has an address,
  -- no request changes an address, the interface or the network namespace of the pod again.
  pub update_handler-IsAddressed :
      (method : Str) (body : Error ⊎ PodParameters) (s : Server W N)
      → (IsAddressed s → IsAddressed (update_handler rt network method body s).1)
        × (has_address s ≡ true → SameNetwork s (update_handler rt network method body s).1)
  update_handler-IsAddressed method body s = (update_handler-both method body s).0
