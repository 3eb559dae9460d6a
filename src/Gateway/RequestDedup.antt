-- ===== src/Gateway/RequestDedup.antt =====
-- gateway/request_dedup.go: requests in flight, so that an equal one can join. A channel is a
-- number, handed out in order; `closed` says which have been closed.
mod Invariant
mod Examples
use pmi.Base.{
  text_append, ℕ, ◌+◌, String, Bool, true, false, Option, none, some, leb, ◌==◌, if◌then◌else◌,
  StringMap, empty, insert, delete,
}

pub record InflightRequest : Type 0 where
  pub done : ℕ
  pub err : Option String
  pub node_id : String
  pub ref_count : ℕ

pub record RequestDeduplicator : Type 0 where
  pub inflight : StringMap InflightRequest
  pub channels : ℕ
  pub closed : ℕ → Bool

pub new_request_deduplicator : RequestDeduplicator
new_request_deduplicator = record { inflight = empty; channels = 0; closed = λ c. false }

-- `sha256` is the hex digest of a text.
get_key : (String → String) → String → String → String → String → String
get_key sha256 method target country city = sha256 (
    text_append method (
      text_append ":"
        (text_append target (text_append ":" (text_append country (text_append ":" city))))))

-- What `BeginRequest` returns.
pub record Begun : Type 0 where
  pub key : String
  pub done : ℕ
  pub node_id : String
  pub is_duplicate : Bool

-- `BeginRequest`, from the key on
pub begin_request : String → RequestDeduplicator → RequestDeduplicator × Begun
begin_request key rd = elim (rd.inflight key) [
  | some existing ↦ (
    record rd {
      inflight = insert key (record existing { ref_count = existing.ref_count + 1 }) rd.inflight;
    },
    record { key = key; done = existing.done; node_id = existing.node_id; is_duplicate = true },
  )
  | none ↦ (
    record rd {
      inflight =
          insert key (record { done = rd.channels; err = none; node_id = ""; ref_count = 1 })
            rd.inflight;
      channels = rd.channels + 1;
    },
    record { key = key; done = rd.channels; node_id = ""; is_duplicate = false },
  )
]

-- `none` is a panic: a channel is closed twice.
close_channel : ℕ → (ℕ → Bool) → Option (ℕ → Bool)
close_channel c closed = if closed c then none else some (λ d. if d == c then true else closed d)

pub complete_request :
    String → String → Option String → RequestDeduplicator → Option RequestDeduplicator
unfolding close_channel
complete_request key node_id err rd = elim (rd.inflight key) [
  | none ↦ some rd
  | some existing ↦ elim (close_channel existing.done rd.closed) [
    | none ↦ none
    | some closed' ↦
        let finished : InflightRequest = record existing { err = err; node_id = node_id } in
        some
          (record rd { inflight = delete key (insert key finished rd.inflight); closed = closed' })
  ]
]

pub get_node_for_request : String → RequestDeduplicator → String
get_node_for_request key rd = elim (rd.inflight key) [
  | none ↦ ""
  | some existing ↦ existing.node_id
]

-- one round of `cleanupLoop`
pub cleanup : RequestDeduplicator → RequestDeduplicator
cleanup rd = record rd {
  inflight = λ key. elim (rd.inflight key) [
    | none ↦ none
    | some req ↦ if leb req.ref_count 0 then none else some req
  ];
}
