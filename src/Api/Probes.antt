-- ===== src/Api/Probes.antt =====
-- Probes: the structs from `ExecAction` to `Probe` of pkg/api/types.go.
use itzo.Base.{List, Option, Str, ℤ}

-- `intstr.IntOrString`, of which the agent reads the kind, the number and the text. `other` stands
-- for a value whose kind is neither.
pub data IntOrString : Type 0 where
  int : ℤ → IntOrString
  str : Str → IntOrString
  other : IntOrString

pub record ExecAction : Type 0 where
  pub command : List Str

pub record HttpHeader : Type 0 where
  pub name : Str
  pub value : Str

pub record HttpGetAction : Type 0 where
  pub path : Str
  pub port : IntOrString
  pub host : Str
  pub scheme : Str
  pub http_headers : List HttpHeader

pub record TcpSocketAction : Type 0 where
  pub port : IntOrString
  pub host : Str

-- `Probe` with its inlined `Handler`.
pub record Probe : Type 0 where
  pub exec : Option ExecAction
  pub http_get : Option HttpGetAction
  pub tcp_socket : Option TcpSocketAction
  pub initial_delay_seconds : ℤ
  pub timeout_seconds : ℤ
  pub period_seconds : ℤ
  pub success_threshold : ℤ
  pub failure_threshold : ℤ
