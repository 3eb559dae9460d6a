-- ===== src/Gateway/Webhook/Examples.antt =====
-- gateway/timeout_webhook.go: a webhook that answers the third attempt, and one that never does.
use pmi.Base.{
  ℕ, ◌-◌, ◌*◌, ◌^◌, String, ◌≡◌, refl, true, false, [], ◌∷◌, arith, ltb, if◌then◌else◌, List,
}
use pmi.Gateway.Webhook.{
  NodeWebhook, WebhookConfig, Attempt, failed, answered, is_success, new_node_webhook, send_webhook,
  record_success, record_failure, trigger_event, register_webhook,
}
use pmi.Gateway.Webhook.Delivery.{gives_up_after_retries}

abbrev third_answers : ℕ → Attempt
third_answers k = if ltb k 2 then failed else answered 200

abbrev webhooks : NodeWebhook
webhooks = new_node_webhook 3

gives_up_after_retries_example :
    send_webhook (λ k. answered 500) "u" webhooks
    ≡ (record_failure "u" webhooks, false, 500 * 2 ^ webhooks.max_retries - 500)
unfolding is_success
gives_up_after_retries_example =
    gives_up_after_retries (λ k. answered 500) "u" webhooks (λ j l. refl)

abbrev config : String → WebhookConfig
config event = record { url = "u"; secret = ""; events = event ∷ [] }

-- "*" stands for every event.
star_listens :
    trigger_event "n" "down"
      (register_webhook "n" (config "*") (register_webhook "n" (config "up") webhooks))
    ≡ "u" ∷ []
unfolding trigger_event register_webhook new_node_webhook pmi.Gateway.Webhook.triggered
    pmi.Base.text_discrete
star_listens = refl
