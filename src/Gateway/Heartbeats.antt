-- ===== src/Gateway/Heartbeats.antt =====
-- gateway/validation.go, `WebSocketHeartbeat` and `RequestValidator`: which connections are
-- alive, by their pongs, and the rules for requests. Each reading of the clock is an argument.
mod Alive
use text.Mathlib.Text.{starts_with}
use pmi.Base.{
  text_append, ℕ, ◌+◌, String, Bool, true, false, ◌&&◌, Option, none, some, List, [], ◌∷◌, ltb,
  if◌then◌else◌, ite, text_discrete, StringMap, empty, insert, delete,
}
use pmi.Base.Http.{Reply, next, abort}

pub record WsConnection : Type 0 where
  pub node_id : String
  pub last_ping : ℕ
  pub last_pong : ℕ
  pub is_alive : Bool
  pub remote_addr : String

pub record WebSocketHeartbeat : Type 0 where
  pub connections : StringMap WsConnection
  pub ping_interval : ℕ
  pub timeout : ℕ

new_web_socket_heartbeat : ℕ → ℕ → WebSocketHeartbeat
new_web_socket_heartbeat ping_interval timeout = record {
  connections = empty;
  ping_interval = ping_interval;
  timeout = timeout;
}

pub register_connection : ℕ → String → String → String → WebSocketHeartbeat → WebSocketHeartbeat
register_connection now conn_id node_id remote_addr wsh = record wsh {
  connections =
      insert conn_id
        (record {
          node_id = node_id;
          last_ping = now;
          last_pong = now;
          is_alive = true;
          remote_addr = remote_addr;
        })
        wsh.connections;
}

pub record_pong : ℕ → String → WebSocketHeartbeat → WebSocketHeartbeat
record_pong now conn_id wsh = elim (wsh.connections conn_id) [
  | none ↦ wsh
  | some conn ↦ record wsh {
    connections = insert conn_id (record conn { last_pong = now; is_alive = true }) wsh.connections;
  }
]

unregister_connection : String → WebSocketHeartbeat → WebSocketHeartbeat
unregister_connection conn_id wsh = record wsh { connections = delete conn_id wsh.connections }

pub is_alive : String → WebSocketHeartbeat → Bool
is_alive conn_id wsh = elim (wsh.connections conn_id) [ none ↦ false | some conn ↦ conn.is_alive ]

-- The numbers of all connections and of those that are alive; the loop meets `order`.
get_stats : List String → WebSocketHeartbeat → ℕ × ℕ
get_stats [] wsh = (0, 0)
get_stats (conn_id ∷ later) wsh =
    let (total, alive) = get_stats later wsh in
    elim (wsh.connections conn_id) [
      | none ↦ (total, alive)
      | some conn ↦ (total + 1, if conn.is_alive then alive + 1 else alive)
    ]

checked : ℕ → ℕ → Option WsConnection → Option WsConnection
checked now timeout none = none
checked now timeout (some conn) =
    some (if ltb (conn.last_pong + timeout) now then record conn { is_alive = false } else conn)

-- A round of the cleanup, over all connections.
pub cleanup : ℕ → WebSocketHeartbeat → WebSocketHeartbeat
unfolding checked
cleanup now wsh = record wsh { connections = λ j. checked now wsh.timeout (wsh.connections j) }

-- What is left once the rest of the chain has run; `generated` is the id of a request without one.
middleware : String → String → WebSocketHeartbeat → WebSocketHeartbeat
unfolding unregister_connection
middleware header generated wsh =
    unregister_connection (ite (text_discrete header "") generated header) wsh

-- `validationRule`.
pub record ValidationRule : Type 0 where
  pub path : String
  pub method : String
  pub required_cols : List String
  pub max_body_size : ℕ
  pub allow_json : Bool
  pub allow_form : Bool

pub record RequestValidator : Type 0 where
  pub rules : StringMap ValidationRule
  pub max_body_size : ℕ
  pub allowed_types : List String

new_request_validator : ℕ → RequestValidator
new_request_validator max_body_size = record {
  rules = empty;
  max_body_size = max_body_size;
  allowed_types = "application/json" ∷ "application/x-www-form-urlencoded" ∷ [];
}

rule_key : String → String → String
rule_key method path = text_append method (text_append ":" path)

add_rule : String → String → List String → ℕ → RequestValidator → RequestValidator
unfolding rule_key
add_rule path method required_fields max_body_size rv = record rv {
  rules =
      insert (rule_key method path)
        (record {
          path = path;
          method = method;
          required_cols = required_fields;
          max_body_size = max_body_size;
          allow_json = true;
          allow_form = true;
        })
        rv.rules;
}

delete_rule : String → String → RequestValidator → RequestValidator
unfolding rule_key
delete_rule path method rv = record rv { rules = delete (rule_key method path) rv.rules }

too_large : ℕ → Option ValidationRule → Bool
too_large content_length none = false
too_large content_length (some rule) =
    ltb rule.max_body_size content_length && ltb 0 rule.max_body_size

-- A content length that is not known, -1 in the program, is below every limit, as is 0.
validate : String → String → ℕ → RequestValidator → Reply
unfolding too_large rule_key
validate path method content_length rv =
    if too_large content_length (rv.rules (rule_key method path)) then abort 413 else next

any_prefix : String → List String → Bool
any_prefix content_type [] = false
any_prefix content_type (ct ∷ cts) =
    if starts_with content_type ct then true else any_prefix content_type cts

-- The error, none for nil.
validate_body : String → RequestValidator → Option String
unfolding any_prefix
validate_body content_type rv =
    ite (text_discrete content_type "") none
      (if any_prefix content_type rv.allowed_types then none else some "unsupported content type")
