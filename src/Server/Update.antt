-- ===== src/Server/Update.antt =====
-- `updateHandler` and `statusHandler` of pkg/server/server.go.
pub mod Laws
use itzo.Base.{
  ℕ, ◌+◌, Bool, true, false, ◌&&◌, ◌||◌, not, Option, none, some, List, [], ◌∷◌, ◌++◌,
  if◌then◌else◌, ◌==◌, str_eq, str_beq, ltb, Str, lit, Map, insert, Error, ◌⊎◌, inl, inr,
}
use itzo.Api.{PodSpec, PodParameters, UnitStatus, is_host_network}
use itzo.Io.{Result, ok, err, panic}
use itzo.Controller.Runtime.{RuntimeService}
use itzo.Controller.State.{PodController}
use itzo.Controller.Status.{get_status}
use itzo.Controller.Loop.{update_pod}
use itzo.Server.Responses.{Response, not_found, bad_request, server_error, answered}

-- Package net, over the state of the host's network, and `host.EnsureNetworkAgent`, which tells
-- whether there is a process to wait for.
pub record Network (N : Type 0) : Type 0 where
  pub setup_net_namespace : Str → N → (Error ⊎ (Str × Str × Str)) × N
  pub primary_interface : N → Error ⊎ Str
  pub ensure_network_agent : Str → Str → N → Bool × N

-- `agent` tells that `networkAgentCmd` is not nil.
pub record Server (W N : Type 0) : Type 0 where
  pub pc : PodController W
  pub net : N
  pub primary_ip : Str
  pub secondary_ip : Str
  pub pod_ip : Str
  pub pod_network_interface : Str
  pub agent : Bool
  pub last_metric_time : ℕ

abbrev pub veth0 : Str
veth0 = lit "veth0"

interface_name : Error ⊎ Str → Str
unfolding lit
interface_name (inl e) = lit "eth0"
interface_name (inr netif) = netif

module _ {W N : Type 0} (rt : RuntimeService W) (network : Network N) where
  -- `SetPodNetwork` of the controller.
  unfoldable pub set_pod_network : PodController W → Str → Str → PodController W
  set_pod_network pc net_ns pod_ip = record pc {
    net_ns = net_ns;
    pod_ip = pod_ip;
    runtime = rt.set_pod_network pc.runtime net_ns pod_ip;
  }

  -- The addresses that were found are kept.
  use_network : Bool → Str → Str → Str → Server W N → Server W N
  unfolding interface_name set_pod_network lit
  use_network true primary secondary pod_ns s = record s {
    primary_ip = primary;
    secondary_ip = secondary;
    pod_ip = primary;
    pod_network_interface = interface_name (network.primary_interface s.net);
  }
  use_network false primary secondary pod_ns s = record s {
    primary_ip = primary;
    secondary_ip = secondary;
    pod_ip = secondary;
    pod_network_interface = veth0;
    pc = set_pod_network s.pc pod_ns secondary;
  }

  setup_result :
      PodParameters → (Error ⊎ (Str × Str × Str)) × N → Server W N → Option Error × Server W N
  unfolding use_network
  setup_result params (inl e, n) s = (some e, record s { net = n })
  setup_result params (inr (primary, secondary, pod_ns), n) s = (
    none,
    use_network (is_host_network params.spec.security_context) primary secondary pod_ns
        (record s { net = n }),
  )

  -- The network is set up until it has an address.
  unfoldable pub ensure_network : PodParameters → Server W N → Option Error × Server W N
  unfolding setup_result
  ensure_network params s =
      if str_beq s.primary_ip [] && str_beq s.secondary_ip []
      then setup_result params (network.setup_net_namespace params.pod_ip s.net) s
      else (none, s)

  unfoldable pub start_network_agent : Str → Server W N → Server W N
  start_network_agent node_name s =
      let r = network.ensure_network_agent s.primary_ip node_name s.net in
      record s { agent = r.0; net = r.1 }

  ensure_agent : Str → Server W N → Server W N
  unfolding start_network_agent
  ensure_agent node_name s =
      if not s.agent && not (str_beq node_name []) then start_network_agent node_name s else s

  update_answer : Option Error → Response
  update_answer none = answered []
  update_answer (some e) = server_error e

  submit : PodParameters → Server W N → Response × Server W N
  unfolding update_answer update_pod
  submit params s = let r = update_pod s.pc params in (update_answer r.0, record s { pc = r.1 })

  after_network : PodParameters → Option Error × Server W N → Response × Server W N
  unfolding submit ensure_agent
  after_network params (some e, s) = (server_error e, s)
  after_network params (none, s) = submit params (ensure_agent params.node_name s)

  post_update : Error ⊎ PodParameters → Server W N → Response × Server W N
  unfolding after_network ensure_network
  post_update (inl e) s =
      (bad_request (Error.wrapf "Error decoding pod update request: %v" [] e), s)
  post_update (inr params) s = after_network params (ensure_network params s)

  -- The second argument is what the decoder makes of the body.
  unfoldable pub update_handler : Str → Error ⊎ PodParameters → Server W N → Response × Server W N
  unfolding post_update lit
  update_handler method body s = if method == lit "POST" then post_update body s else (not_found, s)

-- `ReadSystemMetrics` and `ReadUnitMetrics`, over the metrics `V`.
pub record Metrics (W V : Type 0) : Type 0 where
  pub read_system_metrics : Str → W → Map V
  pub read_unit_metrics : Str → W → Map V

module _ {V : Type 0} where
  -- A metric of a unit replaces one of the same key.
  unfoldable pub add_metrics : Map V → Map V → Map V
  unfolding insert
  add_metrics [] usage = usage
  add_metrics (m ∷ ms) usage = add_metrics ms (insert m.0 m.1 usage)

  unfoldable pub add_unit_metrics : (Str → Map V) → List UnitStatus → Map V → Map V
  unfolding add_metrics
  add_unit_metrics read [] usage = usage
  add_unit_metrics read (us ∷ statuses) usage =
      add_unit_metrics read statuses (add_metrics (read us.name) usage)

-- `api.PodStatusReply`; the resource usage is a map that may be nil.
pub record PodStatusReply (V : Type 0) : Type 0 where
  pub unit_statuses : List UnitStatus
  pub init_unit_statuses : List UnitStatus
  pub resource_usage : Option (Map V)
  pub pod_ip : Str

-- 14 seconds, in nanoseconds.
abbrev pub min_metric_period : ℕ
min_metric_period = 14000000000

module _ {W N V : Type 0} (rt : RuntimeService W) (metrics : Metrics W V) where
  -- The two reads of the clock are `now` and `later`.
  reply_of : ℕ → ℕ → List UnitStatus → List UnitStatus → Server W N → PodStatusReply V × Server W N
  unfolding add_unit_metrics
  reply_of now later statuses inits s =
      let due = ltb (s.last_metric_time + min_metric_period) now in
      let usage =
        add_unit_metrics (λ name. metrics.read_unit_metrics name s.pc.runtime) (statuses ++ inits)
          (metrics.read_system_metrics s.pod_network_interface s.pc.runtime) in
      (
        record {
          unit_statuses = statuses;
          init_unit_statuses = inits;
          resource_usage = if due then some usage else none;
          pod_ip = s.pod_ip;
        },
        record s { last_metric_time = if due then later else s.last_metric_time },
      )

  -- The reply is encoded as JSON by package encoding/json; a panic of the status is passed on.
  unfoldable pub status_reply : ℕ → ℕ → Server W N → Result (PodStatusReply V) × Server W N
  unfolding reply_of
  status_reply now later s =
      let r = get_status rt s.pc in
      let s' = record s { pc = r.1 } in
      elim r.0 [
        | ok both ↦ let a = reply_of now later both.0 both.1 s' in (ok a.0, a.1)
        | err e ↦ (err e, s')
        | panic ↦ (panic, s')
      ]
