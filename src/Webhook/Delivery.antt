-- ===== src/Webhook/Delivery.antt =====
-- Attempts at deliveries: api/bigrag/services/webhook/delivery.py.
pub mod Claims
pub mod Attempts
pub mod Rounds
use bigrag.Base.{
  ℕ, zero, suc, ◌+◌, ◌-◌, ◌*◌, String, ◌++◌, Bool, true, false, not, ◌&&◌, ◌||◌, Option, none, some,
  List, [], ◌∷◌, text_eq, ltb, leb, max, if◌then◌else◌, length,
}

-- `webhook_deliveries.status`
pub data DeliveryStatus : Type 0 where
  pending delivered failed : DeliveryStatus

-- `last_error`, by what it is made of: an HTTP status, a refused URL, a text.
pub data DeliveryError : Type 0 where
  http : ℕ → DeliveryError
  blocked : String → DeliveryError
  raised : String → DeliveryError

pub record Delivery : Type 0 where
  pub id : String
  pub webhook_id : String
  pub event : String
  pub payload : String
  pub status : DeliveryStatus
  pub attempts : Option ℕ
  pub next_retry_at : Option ℕ
  pub last_status_code : Option ℕ
  pub last_error : Option DeliveryError
  pub completed_at : Option ℕ

pub record Webhook : Type 0 where
  pub id : String
  pub url : String
  pub secret : String

pub record Headers : Type 0 where
  pub signature : String
  pub timestamp : String
  pub event : String
  pub delivery : String

-- The exceptions of `post_pinned`: a `ValueError`, or another with its text and its class's name.
pub data PostError : Type 0 where
  value_error : String → PostError
  other_error : String → String → PostError

pub data PostResult : Type 0 where
  response : ℕ → PostResult
  exception : PostError → PostResult

-- The settings and what the deliveries call: the signature, the request, the sanitizer, the jitter.
pub record Sender : Type 0 where
  pub retry_delays : List ℕ
  pub delivery_timeout : ℕ
  pub timestamp_text : ℕ → String
  pub compute_signature : String → String → String → String
  pub post_pinned : String → String → Headers → PostResult
  pub sanitize_message_text : String → String
  pub jittered_delay : ℕ → ℕ

-- One claimed delivery.
pub record Item : Type 0 where
  pub attempt : ℕ
  pub delivery_id : String
  pub event : String
  pub payload : String
  pub webhook : Webhook

pub record Classified : Type 0 where
  pub status : DeliveryStatus
  pub status_code : Option ℕ
  pub error : Option DeliveryError

unfoldable pub is_success : ℕ → Bool
is_success code = leb 200 code && ltb code 300

-- `_classify_response`
unfoldable pub classify_response : ℕ → Classified
unfolding is_success
classify_response code =
    if is_success code
    then record { status = delivered; status_code = some code; error = none }
    else record { status = failed; status_code = some code; error = some (http code) }

abbrev or_text : String → String → String
or_text text other = if text_eq text "" then other else text

abbrev pub is_due : ℕ → Option ℕ → Bool
is_due now none = true
is_due now (some t) = leb t now

abbrev pub is_pending : DeliveryStatus → Bool
is_pending pending = true
is_pending delivered = false
is_pending failed = false

abbrev asked_for : Option String → Delivery → Bool
asked_for none d = true
asked_for (some id) d = text_eq d.id id

unfoldable pub due : ℕ → Option String → Delivery → Bool
due now delivery_id d = is_pending d.status && is_due now d.next_retry_at && asked_for delivery_id d

-- `int(delivery.attempts or 0)`
abbrev pub count : Option ℕ → ℕ
count none = 0
count (some n) = n

unfoldable pub find_webhook : String → List Webhook → Option Webhook
find_webhook id [] = none
find_webhook id (w ∷ ws) = if text_eq w.id id then some w else find_webhook id ws

-- What the `try` of `_attempt_delivery` finds: the status code, whether it is terminal, the error.
pub record Finding : Type 0 where
  pub code : Option ℕ
  pub delivered : Bool
  pub terminal : Bool
  pub error : Option DeliveryError

-- `delays[attempt - 1]`
unfoldable pub delay_at : List ℕ → ℕ → Option ℕ
delay_at [] n = none
delay_at (x ∷ xs) zero = some x
delay_at (x ∷ xs) (suc n) = delay_at xs n

abbrev pub settled_as : DeliveryStatus → ℕ → Finding → Option DeliveryError → Delivery → Delivery
settled_as status now f error d = record d {
  status = status;
  last_status_code = f.code;
  last_error = error;
  next_retry_at = none;
  completed_at = some now;
}

abbrev pub update_row : String → Option (Delivery → Delivery) → List Delivery → List Delivery
update_row id none ds = ds
update_row id (some f) [] = []
update_row id (some f) (d ∷ ds) =
    let rest = update_row id (some f) ds in if text_eq d.id id then f d ∷ rest else d ∷ rest

-- `groups.setdefault(…).append(item)`
unfoldable pub add_to_group : Item → List (String × List Item) → List (String × List Item)
add_to_group item [] = (item.webhook.id, item ∷ []) ∷ []
add_to_group item ((k, items) ∷ groups) =
    let rest = add_to_group item groups in
    if text_eq k item.webhook.id then (k, items ++ item ∷ []) ∷ groups else (k, items) ∷ rest

unfoldable pub group_items : List Item → List (String × List Item) → List (String × List Item)
unfolding add_to_group
group_items [] groups = groups
group_items (item ∷ items) groups = group_items items (add_to_group item groups)

module _ (sender : Sender) where
  unfoldable pub max_attempts : ℕ
  max_attempts = length sender.retry_delays + 1

  unfoldable pub claim_seconds : ℕ
  claim_seconds = max (max sender.delivery_timeout 1 * 2) 60

  unfoldable pub claimed : ℕ → Delivery → Delivery
  unfolding claim_seconds
  claimed now d = record d {
    attempts = some (count d.attempts + 1);
    next_retry_at = some (now + claim_seconds);
  }

  abbrev pub item_of : Delivery → Webhook → Item
  item_of d webhook = record {
    attempt = count d.attempts + 1;
    delivery_id = d.id;
    event = d.event;
    payload = d.payload;
    webhook = webhook;
  }

  -- The session of `process_due_deliveries`: at most `limit` due rows that have a webhook, the oldest
  -- first, are claimed. The rows stand in the order of their creation.
  unfoldable pub claim :
      List Webhook → ℕ → Option String → ℕ → List Delivery → List Delivery × List Item
  claim webhooks now delivery_id zero ds = (ds, [])
  claim webhooks now delivery_id (suc limit) [] = ([], [])
  claim webhooks now delivery_id (suc limit) (d ∷ ds) =
      let (rest, items) = claim webhooks now delivery_id limit ds in
      let (skipped, others) = claim webhooks now delivery_id (suc limit) ds in
      elim (find_webhook d.webhook_id webhooks) [
        | none ↦ (d ∷ skipped, others)
        | some webhook ↦
            if due now delivery_id d
            then (claimed now d ∷ rest, item_of d webhook ∷ items)
            else (d ∷ skipped, others)
      ]

  unfoldable pub signed_headers : ℕ → String → String → String → String → Headers
  signed_headers now payload secret event delivery = record {
    signature = sender.compute_signature payload secret (sender.timestamp_text now);
    timestamp = sender.timestamp_text now;
    event = event;
    delivery = delivery;
  }

  unfoldable pub finding : PostResult → Finding
  unfolding classify_response
  finding (response code) =
      let c = classify_response code in
      record {
        code = c.status_code;
        delivered = is_success code;
        terminal = false;
        error = c.error;
      }
  finding (exception (value_error m)) = record {
    code = none;
    delivered = false;
    terminal = true;
    error = some (blocked (or_text (sender.sanitize_message_text m) "URL rejected"));
  }
  finding (exception (other_error m name)) = record {
    code = none;
    delivered = false;
    terminal = false;
    error = some (raised (or_text (sender.sanitize_message_text m) name));
  }

  abbrev pub retried_at : ℕ → Finding → ℕ → Delivery → Delivery
  retried_at now f delay d = record d {
    last_status_code = f.code;
    last_error = f.error;
    next_retry_at = some (now + sender.jittered_delay delay);
  }

  -- The `values` of the UPDATE; none stands for the `IndexError` of `delays[attempt - 1]`.
  unfoldable pub values_for : ℕ → ℕ → Finding → Option (Delivery → Delivery)
  unfolding max_attempts delay_at
  values_for now attempt f =
      if f.delivered
      then some (settled_as delivered now f none)
      else if f.terminal || leb max_attempts attempt
      then some (settled_as failed now f f.error)
      else elim (delay_at sender.retry_delays (attempt - 1)) [
        | none ↦ none
        | some delay ↦ some (retried_at now f delay)
      ]

  -- `_attempt_delivery`
  unfoldable pub attempt_delivery : ℕ → Item → List Delivery → List Delivery
  unfolding signed_headers finding values_for
  attempt_delivery now item ds =
      let headers =
        signed_headers now item.payload item.webhook.secret item.event item.delivery_id in
      let found = finding (sender.post_pinned item.webhook.url item.payload headers) in
      update_row item.delivery_id (values_for now item.attempt found) ds

  unfoldable pub attempt_all : ℕ → List Item → List Delivery → List Delivery
  unfolding attempt_delivery
  attempt_all now [] ds = ds
  attempt_all now (item ∷ items) ds = attempt_all now items (attempt_delivery now item ds)

  unfoldable pub attempt_groups : ℕ → List (String × List Item) → List Delivery → List Delivery
  unfolding attempt_all
  attempt_groups now [] ds = ds
  attempt_groups now ((k, items) ∷ groups) ds = attempt_groups now groups (attempt_all now items ds)

  -- `process_due_deliveries`: claimed at `now`, attempted at `later`, one group after the other.
  unfoldable pub process_due_deliveries :
      List Webhook → ℕ → ℕ → Option String → ℕ → List Delivery → List Delivery × ℕ
  unfolding claim group_items attempt_groups
  process_due_deliveries webhooks now later delivery_id limit ds =
      let (rows, work) = claim webhooks now delivery_id limit ds in
      (attempt_groups later (group_items work []) rows, length work)

  -- `deliver_once`
  abbrev once : PostResult → Classified
  once (response code) = classify_response code
  once (exception (value_error m)) = record {
    status = failed;
    status_code = none;
    error = some (blocked "URL targets a private or internal network");
  }
  once (exception (other_error m name)) = record {
    status = failed;
    status_code = none;
    error = some (raised (or_text (sender.sanitize_message_text m) name));
  }

  unfoldable pub deliver_once : ℕ → Webhook → String → String → String → Classified
  unfolding signed_headers classify_response
  deliver_once now webhook event payload delivery_id = once (
      sender.post_pinned webhook.url payload
        (signed_headers now payload webhook.secret event delivery_id))
