-- ===== src/Gateway/Webhook.antt =====
-- gateway/timeout_webhook.go, `NodeWebhook`: the calls of a node's webhooks, with their retries,
-- of which the number is not negative. What an attempt meets is an argument.
mod Delivery
mod Examples
use pmi.Base.{
  ℕ, zero, suc, ◌+◌, ◌*◌, ◌^◌, String, Bool, true, false, ◌&&◌, ◌||◌, Option, none, some, List, [],
  ◌∷◌, ◌++◌, ltb, leb, if◌then◌else◌, ite, text_discrete, StringMap, empty, insert, delete,
}
use pmi.Base.Http.{Reply, next, abort}

pub record WebhookConfig : Type 0 where
  pub url : String
  pub secret : String
  pub events : List String

-- A node or an address with no key reads as an empty list or as 0.
pub record NodeWebhook : Type 0 where
  pub webhooks : String → List WebhookConfig
  pub fail_count : String → ℕ
  pub max_retries : ℕ

pub new_node_webhook : ℕ → NodeWebhook
new_node_webhook max_retries = record {
  webhooks = λ _. [];
  fail_count = λ _. 0;
  max_retries = max_retries;
}

register_webhook : String → WebhookConfig → NodeWebhook → NodeWebhook
register_webhook node_id config nw = record nw {
  webhooks =
      λ i. ite (text_discrete node_id i) (nw.webhooks node_id ++ (config ∷ [])) (nw.webhooks i);
}

clear_webhooks : String → NodeWebhook → NodeWebhook
clear_webhooks node_id nw = record nw {
  webhooks = λ i. ite (text_discrete node_id i) [] (nw.webhooks i);
}

-- The loop over the events of one webhook.
listens : String → List String → Bool
listens event [] = false
listens event (e ∷ later) =
    ite (text_discrete e event) true (ite (text_discrete e "*") true (listens event later))

-- The addresses that are sent the event, each by a goroutine of its own.
triggered : String → List WebhookConfig → List String
unfolding listens
triggered event [] = []
triggered event (wh ∷ later) =
    let rest = triggered event later in if listens event wh.events then wh.url ∷ rest else rest

pub trigger_event : String → String → NodeWebhook → List String
unfolding triggered
trigger_event node_id event nw = triggered event (nw.webhooks node_id)

-- What one attempt meets: the request or its sending fails, or a status comes back.
pub data Attempt : Type 0 where
  failed : Attempt
  answered : ℕ → Attempt

pub is_success : Attempt → Bool
is_success failed = false
is_success (answered status) = leb 200 status && ltb status 300

-- The loop from an attempt on, with so many retries left and the time of the next pause: whether
-- an attempt succeeded, and the milliseconds slept.
attempts_from : (ℕ → Attempt) → ℕ → ℕ → ℕ → Bool × ℕ
unfolding is_success
attempts_from outcome attempt backoff zero = (is_success (outcome attempt), 0)
attempts_from outcome attempt backoff (suc left) =
    let (delivered, slept) = attempts_from outcome (suc attempt) (backoff * 2) left in
    if is_success (outcome attempt) then (true, 0) else (delivered, backoff + slept)

pub record_success : String → NodeWebhook → NodeWebhook
record_success url nw = record nw {
  fail_count = λ u. ite (text_discrete url u) 0 (nw.fail_count u);
}

pub record_failure : String → NodeWebhook → NodeWebhook
record_failure url nw = record nw {
  fail_count = λ u. ite (text_discrete url u) (nw.fail_count url + 1) (nw.fail_count u);
}

-- The state after it, whether it returned no error, and the milliseconds slept.
pub send_webhook : (ℕ → Attempt) → String → NodeWebhook → NodeWebhook × Bool × ℕ
unfolding attempts_from record_success record_failure
send_webhook outcome url nw =
    let (delivered, slept) = attempts_from outcome 0 500 nw.max_retries in
    if delivered
    then (record_success url nw, true, slept)
    else (record_failure url nw, false, slept)
