-- ===== src/Webhook/Delivery/Rounds.antt =====
-- Rounds of the outbox over one delivery, until it is settled.
use bigrag.Base.{
  ℕ, zero, suc, ◌+◌, ◌≤◌, ◌<◌, ◌≡◌, refl, String, true, false, ◌&&◌, none, some, List, [], ◌∷◌,
  arith, ◌⊎◌, inl, inr, ◌∙◌, sym, ap, eq_iff, Option-cases,
}
use bigrag.Webhook.Delivery.{
  DeliveryStatus, pending, delivered, failed, Delivery, Webhook, Sender, Finding, due, find_webhook,
  is_due, is_pending, max_attempts, claimed, claim, item_of, count, finding, values_for,
  signed_headers, attempt_delivery, attempt_all, attempt_groups, group_items, add_to_group,
  update_row, process_due_deliveries,
}
use bigrag.Webhook.Delivery.Attempts.{Outcome, values_for-Outcome}

-- The second at which the next round may take the first row.
abbrev pub wake : List Delivery → ℕ
wake [] = 0
wake (d ∷ ds) = count d.next_retry_at

module _ (sender : Sender) (webhook : Webhook) where
  abbrev pub round : List Delivery → List Delivery
  round ds = (process_due_deliveries sender (webhook ∷ []) (wake ds) (wake ds) none 1 ds).0

  abbrev pub rounds : ℕ → List Delivery → List Delivery
  rounds zero ds = ds
  rounds (suc n) ds = rounds n (round ds)

  abbrev found : ℕ → Delivery → Finding
  found now d = finding sender (
      sender.post_pinned webhook.url d.payload
        (signed_headers sender now d.payload webhook.secret d.event d.id))

  due_at_wake : (d : Delivery) → d.status ≡ pending → due (count d.next_retry_at) none d ≡ true
  unfolding due
  due_at_wake d h = elim (Option-cases d.next_retry_at) [
    | inl n ↦ rw (h, n) refl
    | inr (t, e) ↦ rw (h, e) (ground arith)
  ]

  known : (id : String) → webhook.id ≡ id → find_webhook id (webhook ∷ []) ≡ some webhook
  unfolding find_webhook
  known id w = ground (arith, eq_iff webhook.id id, w)

  claim-one :
      (t : ℕ) (d : Delivery)
      → due t none d ≡ true
      → webhook.id ≡ d.webhook_id
      → claim sender (webhook ∷ []) t none 1 (d ∷ [])
        ≡ (claimed sender t d ∷ [], item_of sender d webhook ∷ [])
  unfolding claim
  claim-one t d h w = rw (known d.webhook_id w, h, claim) refl

  claim-none :
      (t : ℕ) (d : Delivery)
      → due t none d ≡ false
      → claim sender (webhook ∷ []) t none 1 (d ∷ []) ≡ (d ∷ [], [])
  unfolding claim
  claim-none t d h = elim (Option-cases (find_webhook d.webhook_id (webhook ∷ []))) [
    | inl n ↦ rw (n, claim) refl
    | inr (w, y) ↦ rw (y, h, claim) refl
  ]

  round-pending :
      (d : Delivery)
      → d.status ≡ pending
      → webhook.id ≡ d.webhook_id
      → round (d ∷ [])
        ≡ update_row d.id
            (values_for sender
              (count d.next_retry_at)
              (count d.attempts + 1)
              (found (count d.next_retry_at) d))
            (claimed sender (count d.next_retry_at) d ∷ [])
  unfolding process_due_deliveries group_items add_to_group attempt_groups attempt_all
      attempt_delivery
  round-pending d h w = rw (round, claim-one (count d.next_retry_at) d (due_at_wake d h) w) refl

  not_due_ended : (t : ℕ) (d : Delivery) → (d.status ≡ pending → ⊥) → due t none d ≡ false
  unfolding due
  not_due_ended t d h = ended d.status h
    where
      ended :
          (s : DeliveryStatus)
          → (s ≡ pending → ⊥)
          → (is_pending s && is_due t d.next_retry_at && true) ≡ false
      ended pending k = absurd (k refl)
      ended delivered k = refl
      ended failed k = refl

  round-ended : (d : Delivery) → (d.status ≡ pending → ⊥) → round (d ∷ []) ≡ d ∷ []
  unfolding process_due_deliveries group_items attempt_groups
  round-ended d h = rw (round, claim-none (count d.next_retry_at) d (not_due_ended _ d h)) refl

  update_row-own :
      (id : String) (g : Delivery → Delivery) (d : Delivery)
      → d.id ≡ id
      → update_row id (some g) (d ∷ []) ≡ g d ∷ []
  update_row-own id g d h = ground (arith, eq_iff d.id id, h)

  -- A round of a pending row updates that row alone.
  round-Outcome :
      (d : Delivery)
      → d.status ≡ pending
      → webhook.id ≡ d.webhook_id
      → (e : Delivery) × (round (d ∷ []) ≡ e ∷ [])
        × Outcome sender
            (count d.next_retry_at)
            (count d.attempts + 1)
            (found (count d.next_retry_at) d)
            (claimed sender (count d.next_retry_at) d)
            e
  unfolding claimed
  round-Outcome d h w =
      let (g, e, out) =
        values_for-Outcome sender (count d.next_retry_at) (count d.attempts + 1)
          (found (count d.next_retry_at) d) (omega arith) in
      let c = claimed sender (count d.next_retry_at) d in
      (g c, round-pending d h w ∙ rw e (update_row-own d.id g c refl), out c)

  rounds-ended : (n : ℕ) (d : Delivery) → (d.status ≡ pending → ⊥) → rounds n (d ∷ []) ≡ d ∷ []
  rounds-ended zero d h = refl
  rounds-ended (suc n) d h = rw (round-ended d h) (rounds-ended n d h)

  pending-cases : (s : DeliveryStatus) → (s ≡ pending) ⊎ (s ≡ pending → ⊥)
  pending-cases pending = inl refl
  pending-cases delivered = inr λ h. cc
  pending-cases failed = inr λ h. cc

  count-claimed :
      (t : ℕ) (d : Delivery) → count (claimed sender t d).attempts ≡ count d.attempts + 1
  unfolding claimed
  count-claimed t d = refl

  claimed-webhook_id : (t : ℕ) (d : Delivery) → (claimed sender t d).webhook_id ≡ d.webhook_id
  unfolding claimed
  claimed-webhook_id t d = refl

  -- Of an outbox with a single delivery and its one webhook, worked on in rounds that each take one
  -- row, at the second at which the row is due: if the delivery is pending with fewer attempts than
  -- `max_attempts`, it is no longer pending after at least so many rounds as make up the difference,
  -- whatever the requests answer; and it was attempted at most `max_attempts` times.
  pub rounds-settle :
      (n : ℕ) (d : Delivery)
      → d.status ≡ pending
      → webhook.id ≡ d.webhook_id
      → count d.attempts < max_attempts sender
      → max_attempts sender ≤ count d.attempts + n
      → (e : Delivery) × (rounds n (d ∷ []) ≡ e ∷ [])
        × (e.status ≡ pending → ⊥)
        × (count e.attempts ≤ max_attempts sender)
  rounds-settle zero d h w lt le = absurd (omega (arith, lt, le))
  rounds-settle (suc n) d h w lt le =
      let (e, p, out) = round-Outcome d h w in
      let more = ap count out.attempts ∙ count-claimed (count d.next_retry_at) d in
      elim (pending-cases e.status) [
        | inr k ↦ (e, rw p (rounds-ended n e k), k, omega (arith, lt, more))
        | inl k ↦
            let few : count d.attempts + 1 < max_attempts sender = elim out.settled [
              | inl a ↦ a
              | inr a ↦ absurd (a.ended k)
            ] in
            let (x, q, ended, most) =
              rounds-settle n e k
                (w ∙ sym (out.webhook_id ∙ claimed-webhook_id (count d.next_retry_at) d))
                (omega (arith, few, more)) (omega (arith, le, more)) in
            (x, rw p q, ended, most)
      ]
