-- ===== src/Webhook/Scenarios.antt =====
-- Deliveries and webhooks, and the theorems of the outbox at them.
use bigrag.Base.{
  ℕ, ◌+◌, ◌≤◌, String, ◌≡◌, refl, true, ◌==◌, if◌then◌else◌, none, some, [], ◌∷◌, arith,
}
use bigrag.Webhook.Delivery.{
  pending, Delivery, Webhook, Sender, response, Finding, finding, max_attempts, claim_seconds,
  count, values_for,
}
use bigrag.Webhook.Delivery.Attempts.{Outcome, values_for-Outcome}
use bigrag.Webhook.Delivery.Claims.{items, rows, left, claim-claim}
use bigrag.Webhook.Delivery.Rounds.{rounds, rounds-settle}
use bigrag.Webhook.Dispatch.{Hook, Outbox, enqueue_deliveries}
use bigrag.Webhook.Dispatch.Chunks.{rows_for, written, counted, enqueue_deliveries-written}

-- A receiver that always answers 503.
abbrev sender : Sender
sender = record {
  retry_delays = 60 ∷ 300 ∷ [];
  delivery_timeout = 10;
  timestamp_text = λ t. "0";
  compute_signature = λ payload secret timestamp. secret;
  post_pinned = λ url payload headers. response 503;
  sanitize_message_text = λ s. s;
  jittered_delay = λ delay. delay;
}

abbrev webhook : Webhook
webhook = record { id = "w1"; url = "https://example.org/hook"; secret = "whsec" }

abbrev fresh : String → Delivery
fresh id = record {
  id = id;
  webhook_id = "w1";
  event = "document.ready";
  payload = "{}";
  status = pending;
  attempts = none;
  next_retry_at = none;
  last_status_code = none;
  last_error = none;
  completed_at = none;
}

enough : max_attempts sender ≤ 0 + 3
unfolding max_attempts
enough = omega arith

some_left : 0 + 1 ≤ max_attempts sender
unfolding max_attempts
some_left = omega arith

rounds-settle_example :
    (e : Delivery) × (rounds sender webhook 3 (fresh "d1" ∷ []) ≡ e ∷ [])
    × (e.status ≡ pending → ⊥)
    × (count e.attempts ≤ max_attempts sender)
rounds-settle_example = rounds-settle sender webhook 3 (fresh "d1") refl refl some_left enough

in_time : 30 + 1 ≤ 0 + claim_seconds sender
unfolding claim_seconds
in_time = omega arith

claim-claim_example :
    items sender
      (webhook ∷ [])
      30
      none
      5
      (rows sender (webhook ∷ []) 0 none 1 (fresh "d1" ∷ fresh "d2" ∷ []))
    ≡ items sender
        (webhook ∷ [])
        30
        none
        5
        (left sender (webhook ∷ []) 0 none 1 (fresh "d1" ∷ fresh "d2" ∷ []))
claim-claim_example =
    claim-claim sender (webhook ∷ []) 0 30 1 5 none none (fresh "d1" ∷ fresh "d2" ∷ []) in_time

abbrev unavailable : Finding
unavailable = finding sender (response 503)

values_for-Outcome_example :
    (g : Delivery → Delivery) × (values_for sender 100 2 unavailable ≡ some g)
    × ((d : Delivery) → Outcome sender 100 2 unavailable d (g d))
values_for-Outcome_example = values_for-Outcome sender 100 2 unavailable (omega arith)

abbrev hook : String → Hook
hook id = record { id = id; active = true; events = []; collections = none }

abbrev outbox : Outbox
outbox = record { deliveries = []; sent = []; next = 7 }

abbrev number_id : ℕ → String
number_id n = if n == 7 then "seven" else "more"

enqueue_deliveries-written_example :
    enqueue_deliveries number_id "document.ready" "{}" (hook "w1" ∷ hook "w2" ∷ []) outbox
    ≡ counted 2
        (written "document.ready" "{}" (rows_for number_id 7 (hook "w1" ∷ hook "w2" ∷ [])) outbox)
enqueue_deliveries-written_example =
    enqueue_deliveries-written number_id "document.ready" "{}" (hook "w1" ∷ hook "w2" ∷ []) outbox
