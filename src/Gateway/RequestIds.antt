-- ===== src/Gateway/RequestIds.antt =====
-- gateway/requestid.go: the ids of requests, the metrics of the administrators' endpoints and the
-- timeouts of the nodes. `trim` and `lower` are `strings.TrimSpace` and `strings.ToLower`,
-- `counted` is the `Sprintf` of a time and a counter, and a UUID is an argument.
mod Distinct
mod Metrics
mod Examples
use pmi.Base.{
  text_append, ℕ, ◌+◌, ◌%◌, ◌^◌, String, Bool, true, false, Option, none, some, List, [], ◌∷◌, leb,
  if◌then◌else◌, ite, text_discrete, StringMap, empty, insert,
}
use pmi.Base.Redis
use pmi.Base.Redis.{Outbox, send}
use pmi.Base.Window.{append_bounded}

pub record RequestIdConfig : Type 0 where
  pub prefix : String
  pub format : String

pub record RequestIdGenerator : Type 0 where
  pub config : RequestIdConfig
  -- `counters["global"]`, a uint64
  pub counter : ℕ
  pub redis : Outbox

module _ (trim lower : String → String) where
  normalize_request_id_prefix : String → String
  normalize_request_id_prefix prefix = ite (text_discrete (trim prefix) "") "req" (trim prefix)

  -- "" for a format that is none of the three
  normalize_request_id_format : String → String
  normalize_request_id_format format =
      let normalized = lower (trim format) in
      ite (text_discrete normalized "unix") normalized (
        ite (text_discrete normalized "timestamp") normalized
          (ite (text_discrete normalized "uuid") normalized ""))

  pub set_prefix : String → RequestIdConfig → RequestIdConfig
  unfolding normalize_request_id_prefix
  set_prefix prefix ric = record ric { prefix = normalize_request_id_prefix prefix }

  pub set_format : String → RequestIdConfig → RequestIdConfig × Bool
  unfolding normalize_request_id_format
  set_format format ric =
      let normalized = normalize_request_id_format format in
      ite (text_discrete normalized "") (ric, false) (record ric { format = normalized }, true)

  new_request_id_config : String → String → RequestIdConfig
  unfolding set_prefix set_format
  new_request_id_config prefix format =
      (set_format format (set_prefix prefix (record { prefix = "req"; format = "unix" }))).0

  new_request_id_generator : String → String → Outbox → RequestIdGenerator
  unfolding new_request_id_config
  new_request_id_generator prefix format redis_client = record {
    config = new_request_id_config prefix format;
    counter = 0;
    redis = redis_client;
  }

  -- `setConfigHandler`, after the body was bound: the status it answers with.
  pub set_config_handler : String → String → RequestIdGenerator → RequestIdGenerator × ℕ
  set_config_handler prefix format rig =
      let config = ite (text_discrete prefix "") rig.config (set_prefix prefix rig.config) in
      let (config', valid) = set_format format config in
      ite (text_discrete format "") (record rig { config = config }, 200)
        (record rig { config = config' }, if valid then 200 else 400)

-- The three cases of the switch are the same.
pub format_value : String → RequestIdConfig → String
format_value value ric = text_append ric.prefix (text_append "-" value)

module _ (counted : ℕ → ℕ → String) where
  -- The two readings of the clock, in nanoseconds and in seconds.
  value_of : ℕ → ℕ → String → ℕ → String → String
  value_of nanos seconds uuid counter format =
      ite (text_discrete format "uuid") uuid
        (ite (text_discrete format "timestamp") (counted seconds counter) (counted nanos counter))

  pub generate : ℕ → ℕ → String → RequestIdGenerator → RequestIdGenerator × String
  unfolding format_value value_of
  generate nanos seconds uuid rig =
      let counter = (rig.counter + 1) % 2 ^ 64 in
      (
        record rig {
          counter = counter;
          redis = send (Redis.hincr_by "request_id_counter" "global" 1 ∷ []) rig.redis;
        },
        format_value (value_of nanos seconds uuid counter rig.config.format) rig.config,
      )

  -- The id that `Middleware` gives a request, which may bring one.
  pub middleware : String → ℕ → ℕ → String → RequestIdGenerator → RequestIdGenerator × String
  unfolding generate
  middleware header nanos seconds uuid rig =
      ite (text_discrete header "") (generate nanos seconds uuid rig) (rig, header)

-- An endpoint with no key reads as 0 or as an empty list.
pub record AdminMetrics : Type 0 where
  pub api_calls : String → ℕ
  pub errors : String → ℕ
  pub latencies : String → List ℕ

pub new_admin_metrics : AdminMetrics
new_admin_metrics = record { api_calls = λ _. 0; errors = λ _. 0; latencies = λ _. [] }

-- `m[endpoint] = v`
put_at {ℓ} : {A : Type ℓ} → String → A → (String → A) → String → A
put_at endpoint v m i = ite (text_discrete endpoint i) v (m i)

pub record_call : String → ℕ → Bool → AdminMetrics → AdminMetrics
unfolding put_at
record_call endpoint latency_ms is_error am = record {
  api_calls = put_at endpoint (am.api_calls endpoint + 1) am.api_calls;
  errors = if is_error then put_at endpoint (am.errors endpoint + 1) am.errors else am.errors;
  latencies = put_at endpoint (append_bounded 1000 latency_ms (am.latencies endpoint)) am.latencies;
}

-- What `Middleware` records of a request with a status.
pub record_request : String → ℕ → ℕ → AdminMetrics → AdminMetrics
unfolding record_call
record_request endpoint latency_ms status am = record_call endpoint latency_ms (leb 400 status) am

pub record NodeTimeoutConfig : Type 0 where
  pub dial_timeout : ℕ
  pub read_timeout : ℕ
  pub write_timeout : ℕ
  pub idle_timeout : ℕ

pub record NodeTimeouts : Type 0 where
  pub timeouts : StringMap NodeTimeoutConfig
  pub default_cfg : NodeTimeoutConfig

set_node_timeout : String → NodeTimeoutConfig → NodeTimeouts → NodeTimeouts
set_node_timeout node_id config nt = record nt { timeouts = insert node_id config nt.timeouts }

set_default_timeout : NodeTimeoutConfig → NodeTimeouts → NodeTimeouts
set_default_timeout config nt = record nt { default_cfg = config }

get_node_timeout : String → NodeTimeouts → NodeTimeoutConfig
get_node_timeout node_id nt = elim (nt.timeouts node_id) [
  | none ↦ nt.default_cfg
  | some config ↦ config
]
