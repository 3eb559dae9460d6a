-- ===== src/PeerSdk.antt =====
-- peer-sdk/sdk.go, `PeerSDK`: a peer's connection to the gateway. The loops that it starts are
-- steps: what their selects take next, what the sensors read and what the gateway answers are
-- arguments. `dials` counts the calls of `NewPeerClient`. Times are in nanoseconds.
pub mod Client
pub mod Consent
mod Reconnect
mod Bounded
mod Examples
use pmi.Base.{
  ℕ, ◌+◌, ◌*◌, String, Bool, true, false, not, ◌&&◌, ◌||◌, Option, none, some, List, [], ◌∷◌, ◌++◌,
  ltb, if◌then◌else◌, ite, text_discrete, length,
}
use pmi.Base.Floats.{FloatOps}
use Client.{
  PeerClient, BandwidthSnapshot, ConnectResponse, new_peer_client, connect, heartbeat, disconnect,
  stop_client,
}
use Client

pub record PeerConfig {ℓ} (F : Type ℓ) : Type ℓ where
  pub node_id : String
  pub gateway_endpoint : String
  pub mtls_enabled : Bool
  pub min_battery : ℕ
  pub max_cpu : F

-- What the sensors of the device read.
pub record Reading {ℓ} (F : Type ℓ) : Type ℓ where
  pub battery : ℕ
  pub charging : Bool
  pub cpu : F
  pub unmetered_wifi : Bool

pub record NodeStatus {ℓ} (F : Type ℓ) : Type ℓ where
  pub node_id : String
  pub online : Bool
  pub battery : ℕ
  pub is_charging : Bool
  pub cpu_usage : F
  pub ip : String

-- The fields of the node that change.
pub record SdkNode : Type 0 where
  pub id : String
  pub ip : String
  pub last_seen : ℕ

pub record PeerSdk {ℓ} (F : Type ℓ) : Type ℓ where
  pub config : PeerConfig F
  pub node : Option SdkNode
  pub cancelled : Bool
  pub is_connected : Bool
  pub status_ch : List (NodeStatus F)
  pub reconn_ch : Bool
  pub client : Option PeerClient
  pub bw_ch : List BandwidthSnapshot
  pub backoff : ℕ
  pub dials : ℕ

abbrev pub second : ℕ
second = 1000000000

abbrev pub max_backoff : ℕ
max_backoff = 300 * second

pub new_peer_sdk {ℓ} : {F : Type ℓ} → PeerConfig F → PeerSdk F
new_peer_sdk config = record {
  config = config;
  node = none;
  cancelled = false;
  is_connected = false;
  status_ch = [];
  reconn_ch = false;
  client = none;
  bw_ch = [];
  backoff = second;
  dials = 0;
}

-- A send with a `default`, on a channel of ten.
offer {ℓ} : {A : Type ℓ} → A → List A → List A
offer a ch = if ltb (length ch) 10 then ch ++ (a ∷ []) else ch

pub report_bandwidth {ℓ} : {F : Type ℓ} → BandwidthSnapshot → PeerSdk F → PeerSdk F
unfolding offer
report_bandwidth bw p = record p { bw_ch = offer bw p.bw_ch }

pub trigger_reconnect {ℓ} : {F : Type ℓ} → PeerSdk F → PeerSdk F
trigger_reconnect p = record p { reconn_ch = true }

stopped_client : Bool → Option PeerClient → Option PeerClient
stopped_client answered none = none
stopped_client answered (some c) = some (stop_client (disconnect answered "user_disconnect" c).0)

pub stop {ℓ} : {F : Type ℓ} → Bool → PeerSdk F → PeerSdk F
unfolding stopped_client
stop answered p = record p {
  client = stopped_client answered p.client;
  cancelled = true;
  is_connected = false;
}

-- What `NewPeerClient` and `Connect` do: none where the gateway cannot be dialled.
abbrev pub Dial : Type 0
Dial = Option (Option ConnectResponse)

dial_failed : PeerClient × Option String → Option PeerClient × Option String
dial_failed (c, none) = (some c, none)
dial_failed (c, some e) = (none, some "failed to connect to gateway")

-- The client if it is connected, or the error; `old` is kept where no client was made.
pub dial : Dial → Option PeerClient → Option PeerClient × Option String
unfolding dial_failed
dial none old = (old, some "failed to create peer client")
dial (some answer) old = dial_failed (connect answer new_peer_client)

module _ {ℓ} {F : Type ℓ} (ops : FloatOps F) where
  pub check_eligibility : PeerConfig F → Reading F → Bool
  check_eligibility config r =
      if ltb 0 config.min_battery && ltb r.battery config.min_battery && not r.charging
      then false
      else if ops.less (ops.of_nat 0) config.max_cpu && ops.less config.max_cpu r.cpu
      then false
      else r.unmetered_wifi

  started : Option PeerClient × Option String → PeerSdk F → PeerSdk F × Option String
  started (c, none) p = (record p { client = c; is_connected = true; dials = p.dials + 1 }, none)
  started (c, some e) p = (record p { client = c; dials = p.dials + 1 }, some e)

  pub start : ℕ → Reading F → String → Dial → PeerSdk F → PeerSdk F × Option String
  unfolding check_eligibility started
  start now reading ip answer p =
      let known : PeerSdk F = record p {
        node = some (record { id = p.config.node_id; ip = ip; last_seen = now });
      } in
      if not (check_eligibility p.config reading)
      then (p, some "node does not meet eligibility requirements")
      else ite (text_discrete p.config.gateway_endpoint "")
          (record known { is_connected = true }, none) (started (dial answer p.client) known)

  -- A tick of the telemetry loop.
  telemetry_tick : Bool → PeerSdk F → PeerSdk F
  unfolding trigger_reconnect
  telemetry_tick answered p = elim p.client [
    | none ↦ p
    | some c ↦
        let (c', error) = heartbeat answered c in
        let beaten : PeerSdk F = record p { client = some c' } in
        elim error [ none ↦ beaten | some e ↦ trigger_reconnect beaten ]
  ]

  report_through : Bool → BandwidthSnapshot → Option PeerClient → Option PeerClient
  report_through answered bw none = none
  report_through answered bw (some c) = some (Client.report_bandwidth answered bw c).0

  -- The telemetry loop takes a report from its channel.
  telemetry_report : Bool → PeerSdk F → PeerSdk F
  unfolding report_through
  telemetry_report answered p = elim p.bw_ch [
    | [] ↦ p
    | bw ∷ later ↦ record p { bw_ch = later; client = report_through answered bw p.client }
  ]

  seen : ℕ → Option SdkNode → Option SdkNode
  seen now none = none
  seen now (some n) = some (record n { last_seen = now })

  redialled : ℕ → Option PeerClient × Option String → PeerSdk F → PeerSdk F
  unfolding seen trigger_reconnect
  redialled now (c, none) p = record p {
    client = c;
    is_connected = true;
    node = seen now p.node;
    backoff = second;
    dials = p.dials + 1;
  }
  redialled now (c, some e) p = trigger_reconnect (record p { dials = p.dials + 1 })

  back_off : PeerSdk F → PeerSdk F
  back_off p = record p {
    backoff = if ltb max_backoff (p.backoff * 2) then max_backoff else p.backoff * 2;
  }

  -- The reconnector takes the signal from its channel.
  reconnector_round : ℕ → Reading F → Dial → PeerSdk F → PeerSdk F
  unfolding redialled back_off trigger_reconnect
  reconnector_round now reading answer p =
      let taken : PeerSdk F = record p { reconn_ch = false } in
      if not p.reconn_ch
      then p
      else if p.is_connected
      then taken
      else if check_eligibility p.config reading
      then redialled now (dial answer p.client) taken
      else trigger_reconnect (back_off taken)

  status_of : Reading F → String → String → PeerSdk F → NodeStatus F
  status_of reading id ip p = record {
    node_id = id;
    online = p.is_connected;
    battery = reading.battery;
    is_charging = reading.charging;
    cpu_usage = reading.cpu;
    ip = ip;
  }

  -- Without a node, which `Start` sets before it starts the loops, the code would panic.
  pub report_status : Reading F → PeerSdk F → PeerSdk F
  unfolding status_of offer
  report_status reading p = elim p.node [
    | none ↦ p
    | some n ↦ record p { status_ch = offer (status_of reading n.id n.ip p) p.status_ch }
  ]

  get_status : Reading F → PeerSdk F → NodeStatus F
  unfolding status_of
  get_status reading p = elim p.node [
    | none ↦ record {
      node_id = "";
      online = false;
      battery = 0;
      is_charging = false;
      cpu_usage = ops.of_nat 0;
      ip = "";
    }
    | some n ↦ status_of reading p.config.node_id n.ip p
  ]

  -- What happens while the peer runs, in any order.
  pub data Event : Type ℓ where
    tick : Bool → Event
    report_sent : Bool → Event
    reconnect : ℕ → Reading F → Dial → Event
    status_due : Reading F → Event
    reported : BandwidthSnapshot → Event
    triggered : Event

  pub step : Event → PeerSdk F → PeerSdk F
  unfolding telemetry_tick telemetry_report reconnector_round report_status report_bandwidth
      trigger_reconnect
  step (tick answered) p = telemetry_tick answered p
  step (report_sent answered) p = telemetry_report answered p
  step (reconnect now reading answer) p = reconnector_round now reading answer p
  step (status_due reading) p = report_status reading p
  step (reported bw) p = report_bandwidth bw p
  step triggered p = trigger_reconnect p

  pub run : List Event → PeerSdk F → PeerSdk F
  unfolding step
  run [] p = p
  run (e ∷ es) p = run es (step e p)
