-- ===== src/Prober/Probe.antt =====
-- pkg/prober/prober.go: one probe, with its retries.
pub mod Laws
use itzo.Base.{
  ℕ, zero, suc, Bool, true, false, ◌&&◌, ◌||◌, Option, none, some, List, [], ◌∷◌, ◌++◌,
  if◌then◌else◌, Str, lit, Map, lookup, insert, Error, ◌⊎◌, inl, inr, ℤ, pos, negsuc, ltz, ltb,
  to_lower, is_some,
}
use itzo.Api.{
  IntOrString, int, str, other, HttpHeader, HttpGetAction, TcpSocketAction, ExecAction, Probe,
}

-- The results of the Kubernetes probe library.
pub data ProbeResult : Type 0 where
  success warning failure unknown : ProbeResult

pub data ProbeType : Type 0 where
  liveness readiness startup : ProbeType

pub record ProbeReply : Type 0 where
  pub result : ProbeResult
  pub output : Str
  pub err : Option Error

-- The Kubernetes probers, and what the agent's own command runner and `net/url` are asked for.
pub record Handlers : Type 0 where
  pub exec : List Str → ℤ → ProbeReply
  pub liveness_http : Str → Str → ℕ → Str → List (Str × List Str) → ℤ → ProbeReply
  pub readiness_http : Str → Str → ℕ → Str → List (Str × List Str) → ℤ → ProbeReply
  pub tcp : Str → ℕ → ℤ → ProbeReply
  pub expand : List Str → List Str

abbrev invalid_port : Error
invalid_port = Error.errorf "invalid port number: %v" []

unfoldable pub extract_port : IntOrString → Error ⊎ ℕ
extract_port (str name) = inl (Error.errorf "could not find port named %s in unit" (name ∷ []))
extract_port (int (pos port)) = if ltb 0 port && ltb port 65536 then inr port else inl invalid_port
extract_port (int (negsuc _)) = inl invalid_port
extract_port other = inl (Error.errorf "intOrString had no kind: %+v" [])

-- `headers[name]`, which is nil for a name that is not there.
values : Option (List Str) → List Str
values none = []
values (some vs) = vs

build_header_from : Map (List Str) → List HttpHeader → Map (List Str)
unfolding values
build_header_from headers [] = headers
build_header_from headers (h ∷ hs) =
    build_header_from (insert h.name (values (lookup h.name headers) ++ h.value ∷ []) headers) hs

unfoldable pub build_header : List HttpHeader → Map (List Str)
unfolding build_header_from
build_header = build_header_from []

or_pod_ip : Str → Str → Str
or_pod_ip pod_ip [] = pod_ip
or_pod_ip pod_ip (c ∷ host) = c ∷ host

-- The reply for a probe that could not be made.
abbrev no_probe : Error → ProbeReply
no_probe e = record { result = unknown; output = []; err = some e }

is_liveness : ProbeType → Bool
is_liveness liveness = true
is_liveness probe_type = false

module _ (h : Handlers) (unit_name pod_ip : Str) where
  http_probe : ProbeType → HttpGetAction → ℤ → ProbeReply
  unfolding is_liveness or_pod_ip extract_port build_header
  http_probe probe_type action timeout = elim (extract_port action.port) [
    | inl e ↦ no_probe e
    | inr port ↦
        if is_liveness probe_type
        then h.liveness_http (to_lower action.scheme) (or_pod_ip pod_ip action.host) port
            action.path (build_header action.http_headers) timeout
        else h.readiness_http (to_lower action.scheme) (or_pod_ip pod_ip action.host) port
            action.path (build_header action.http_headers) timeout
  ]

  tcp_probe : TcpSocketAction → ℤ → ProbeReply
  unfolding or_pod_ip extract_port
  tcp_probe action timeout = elim (extract_port action.port) [
    | inl e ↦ no_probe e
    | inr port ↦ h.tcp (or_pod_ip pod_ip action.host) port timeout
  ]

  -- The first handler that is set is used, in the order exec, HTTP, TCP.
  choose :
      ProbeType → Option ExecAction → Option HttpGetAction → Option TcpSocketAction → ℤ → ProbeReply
  unfolding http_probe tcp_probe
  choose probe_type (some action) http socket timeout = h.exec (h.expand action.command) timeout
  choose probe_type none (some action) socket timeout = http_probe probe_type action timeout
  choose probe_type none none (some action) timeout = tcp_probe action timeout
  choose probe_type none none none timeout =
      no_probe (Error.errorf "Missing probe handler for %s" (unit_name ∷ []))

  unfoldable pub run_probe : ProbeType → Probe → ProbeReply
  unfolding choose
  run_probe probe_type p = choose probe_type p.exec p.http_get p.tcp_socket p.timeout_seconds

-- `runProbeWithRetries` with the replies that the rounds get, one for each of the `retries`: the
-- first without an error, or else the last. The zero values are returned for no rounds.
pub retry_from : ProbeReply → List ProbeReply → ProbeReply
retry_from last [] = last
retry_from last (r ∷ rs) = elim r.err [ none ↦ r | some _ ↦ retry_from r rs ]

unfoldable pub run_probe_with_retries : List ProbeReply → ProbeReply
unfolding retry_from
run_probe_with_retries = retry_from (record { result = unknown; output = []; err = none })

abbrev pub max_probe_retries : ℕ
max_probe_retries = 3

-- `Result` of pkg/prober/results.go. Its zero value is `succeeded`.
pub data Result : Type 0 where
  undetermined succeeded failed : Result

passes : ProbeResult → Bool
passes success = true
passes warning = true
passes failure = false
passes unknown = false

-- The verdict on the reply of the retries, and the error.
judge_reply : ProbeReply → Result × Option Error
unfolding passes
judge_reply r =
    if is_some r.err
    then (failed, r.err)
    else if passes r.result
    then (succeeded, none)
    else (failed, none)

-- `probe`, with the replies of its three rounds. A unit with no probe passes.
unfoldable pub probe : Option Probe → ProbeReply → ProbeReply → ProbeReply → Result × Option Error
unfolding judge_reply run_probe_with_retries
probe none a b c = (succeeded, none)
probe (some spec) a b c = judge_reply (run_probe_with_retries (a ∷ b ∷ c ∷ []))
