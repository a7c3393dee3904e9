-- ===== src/Webhook/Dispatch.antt =====
-- `WebhookDispatcher.enqueue_event` of api/bigrag/services/webhook/dispatcher.py, and payload.py.
pub mod Chunks
use bigrag.Base.{
  ℕ, zero, suc, ◌+◌, String, Bool, true, false, not, ◌&&◌, ◌||◌, Option, none, some, List, [], ◌∷◌,
  ◌++◌, text_eq, leb, if◌then◌else◌, length, keep, any_of, map,
}
use bigrag.Base.Result.{Result, ok, err}
use bigrag.Webhook.Delivery.{Delivery, pending}

-- The fields of a cached webhook that a dispatch reads.
pub record Hook : Type 0 where
  pub id : String
  pub active : Bool
  pub events : List String
  pub collections : Option (List String)

abbrev text_in : String → List String → Bool
text_in x xs = any_of (λ y. text_eq y x) xs

-- `not collection or collection not in collections`
abbrev misses : Option String → List String → Bool
misses none names = true
misses (some name) names = if text_eq name "" then true else not (text_in name names)

abbrev hears : Option (List String) → Option String → Bool
hears none collection = true
hears (some names) collection = not (misses collection names)

unfoldable pub matches_webhook : Hook → String → Option String → Bool
matches_webhook hook event collection =
    if not hook.active
    then false
    else if not (text_in event hook.events)
    then false
    else hears hook.collections collection

-- The rows of `webhook_deliveries` and the ids sent to the broker. Ids come from `uuid7`, which has
-- been called `next` times.
pub record Outbox : Type 0 where
  pub deliveries : List Delivery
  pub sent : List String
  pub next : ℕ

-- One row of `rows`: the id of the delivery and of the webhook.
abbrev pub Row : Type 0
Row = String × String

-- `_DELIVERY_CHUNK`
abbrev pub delivery_chunk : ℕ
delivery_chunk = 500

abbrev pub row_id : Row → String
row_id (id, webhook_id) = id

module _ (event payload : String) where
  abbrev pub delivery_of : Row → Delivery
  delivery_of (id, webhook_id) = record {
    id = id;
    webhook_id = webhook_id;
    event = event;
    payload = payload;
    status = pending;
    attempts = none;
    next_retry_at = none;
    last_status_code = none;
    last_error = none;
    completed_at = none;
  }

  -- `_flush`: the session, and then one message for each row
  unfoldable pub flush : List Row → Outbox → Outbox
  flush [] box = box
  flush (r ∷ rows) box = record box {
    deliveries = box.deliveries ++ map delivery_of (r ∷ rows);
    sent = box.sent ++ map row_id (r ∷ rows);
  }

module _ (uuid7 : ℕ → String) (event payload : String) where
  -- The loop, with the rows that wait for a flush.
  unfoldable pub enqueue_rows : ℕ → List Hook → List Row → Outbox → Outbox
  unfolding flush
  enqueue_rows chunk [] rows box = flush event payload rows box
  enqueue_rows chunk (hook ∷ hooks) rows box =
      let added = rows ++ (uuid7 box.next, hook.id) ∷ [] in
      let counted = record box { next = suc box.next } in
      let flushed = enqueue_rows chunk hooks [] (flush event payload added counted) in
      let waiting = enqueue_rows chunk hooks added counted in
      if leb chunk (length added) then flushed else waiting

  -- `_enqueue_deliveries`
  unfoldable pub enqueue_deliveries : List Hook → Outbox → Outbox
  unfolding enqueue_rows
  enqueue_deliveries [] box = box
  enqueue_deliveries (hook ∷ hooks) box = enqueue_rows delivery_chunk (hook ∷ hooks) [] box

-- `enqueue_event`, with the events that are valid and the payload of the event
unfoldable pub enqueue_event :
    List String
    → (ℕ → String)
    → List Hook
    → String
    → Option String
    → String
    → Outbox
    → Result String ℕ × Outbox
unfolding matches_webhook enqueue_deliveries
enqueue_event valid_events uuid7 webhooks event collection payload box =
    let matching = keep (λ hook. matches_webhook hook event collection) webhooks in
    if not (text_in event valid_events)
    then (err "Invalid webhook event", box)
    else (ok (length matching), enqueue_deliveries uuid7 event payload matching box)
