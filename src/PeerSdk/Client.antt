-- ===== src/PeerSdk/Client.antt =====
-- peer-sdk/grpc_client.go: the client of one connection to the gateway. What the gateway answers is
-- an argument, none where the call fails; the telemetry stream is left out.
use pmi.Base.{ℕ, String, Bool, true, false, Option, none, some, List, [], ◌∷◌, ◌++◌, if◌then◌else◌}

pub record BandwidthSnapshot : Type 0 where
  pub bytes_sent : ℕ
  pub bytes_received : ℕ
  pub duration_seconds : ℕ

-- The calls that reach the gateway; of a heartbeat and of a connection the values are left out.
pub data Call : Type 0 where
  connect_call : Call
  heartbeat_call : Call
  bandwidth_call : ℕ → ℕ → ℕ → Call
  disconnect_call : String → Call

pub record PeerClient : Type 0 where
  pub session_id : String
  pub stopped : Bool
  pub sent : List Call

pub record ConnectResponse : Type 0 where
  pub success : Bool
  pub message : String
  pub session_id : String

-- What `NewPeerClient` returns where it can dial.
abbrev pub new_peer_client : PeerClient
new_peer_client = record { session_id = ""; stopped = false; sent = [] }

call : Call → PeerClient → PeerClient
call m c = record c { sent = c.sent ++ (m ∷ []) }

connected : Option ConnectResponse → PeerClient → PeerClient × Option String
connected none c = (c, some "connect failed")
connected (some r) c =
    if r.success
    then (record c { session_id = r.session_id }, none)
    else (c, some "connect rejected")

-- Each returns the error, none for nil.
unfoldable pub connect : Option ConnectResponse → PeerClient → PeerClient × Option String
unfolding call connected
connect answer c =
    if c.stopped then (c, some "client is stopped") else connected answer (call connect_call c)

failure : String → Bool → Option String
failure message true = none
failure message false = some message

pub heartbeat : Bool → PeerClient → PeerClient × Option String
unfolding call failure
heartbeat answered c =
    if c.stopped
    then (c, some "client is stopped")
    else (call heartbeat_call c, failure "heartbeat failed" answered)

pub report_bandwidth : Bool → BandwidthSnapshot → PeerClient → PeerClient × Option String
unfolding call failure
report_bandwidth answered bw c = if c.stopped then (c, some "client is stopped") else (
  call (bandwidth_call bw.bytes_sent bw.bytes_received bw.duration_seconds) c,
  failure "bandwidth report failed" answered,
)

pub disconnect : Bool → String → PeerClient → PeerClient × Option String
unfolding call failure
disconnect answered reason c = if c.stopped then (c, none) else (
  call (disconnect_call reason) (record c { stopped = true }),
  failure "gRPC disconnect error" answered,
)

pub stop_client : PeerClient → PeerClient
stop_client c = record c { stopped = true }
