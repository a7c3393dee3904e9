-- ===== src/Webhook/Delivery/Attempts.antt =====
-- How often a delivery is tried, and how it ends.
use bigrag.Base.{
  ℕ, zero, suc, ◌-◌, ◌≤◌, ◌<◌, ◌≡◌, refl, Bool, true, false, ◌||◌, Option, none, some, List, [],
  ◌∷◌, leb, if◌then◌else◌, length, arith, ◌⊎◌, inl, inr,
}
use bigrag.Webhook.Delivery.{
  DeliveryStatus, pending, delivered, failed, Delivery, Sender, Finding, max_attempts, delay_at,
  values_for, settled_as, retried_at,
}

-- A row that no attempt follows, with its last code and error.
pub record IsSettled (d : Delivery) : Type 0 where
  pub retry : d.next_retry_at ≡ none
  pub ended : d.status ≡ pending → ⊥

delay_at-some : (xs : List ℕ) (n : ℕ) → n < length xs → (x : ℕ) × (delay_at xs n ≡ some x)
unfolding delay_at
delay_at-some [] n h = absurd (omega (arith, h))
delay_at-some (x ∷ xs) zero h = (x, refl)
delay_at-some (x ∷ xs) (suc n) h = delay_at-some xs n (omega (arith, h))

delivered-pending : {s : DeliveryStatus} → s ≡ delivered → s ≡ pending → ⊥
delivered-pending p q = cc

failed-pending : {s : DeliveryStatus} → s ≡ failed → s ≡ pending → ⊥
failed-pending p q = cc

module _ (sender : Sender) where
  -- What one UPDATE does to a pending row.
  pub record Outcome (now attempt : ℕ) (f : Finding) (d e : Delivery) : Type 0 where
    pub id : e.id ≡ d.id
    pub webhook_id : e.webhook_id ≡ d.webhook_id
    pub attempts : e.attempts ≡ d.attempts
    pub good : f.delivered ≡ true → e.status ≡ delivered
    pub bad :
        f.delivered ≡ false
        → (f.terminal ≡ true) ⊎ (max_attempts sender ≤ attempt)
        → e.status ≡ failed
    pub again :
        f.delivered ≡ false
        → f.terminal ≡ false
        → attempt < max_attempts sender
        → e.status ≡ d.status
    pub settled : (attempt < max_attempts sender) ⊎ IsSettled e

  abbrev chosen : ℕ → Bool → Bool → Finding → Option ℕ → Option (Delivery → Delivery)
  chosen now good last f delay =
      if good
      then some (settled_as delivered now f none)
      else if last
      then some (settled_as failed now f f.error)
      else elim delay [ none ↦ none | some x ↦ some (retried_at sender now f x) ]

  chosen-Outcome :
      (now attempt : ℕ) (good last : Bool) (f : Finding) (delay : Option ℕ)
      → f.delivered ≡ good
      → (f.terminal || leb (max_attempts sender) attempt) ≡ last
      → (last ≡ false → (x : ℕ) × (delay ≡ some x))
      → (g : Delivery → Delivery) × (chosen now good last f delay ≡ some g)
        × ((d : Delivery) → Outcome now attempt f d (g d))
  chosen-Outcome now attempt true last f delay p q r = (
    settled_as delivered now f none,
    refl,
    λ d. record {
      id = refl;
      webhook_id = refl;
      attempts = refl;
      good = λ h. refl;
      bad = λ h k. cc;
      again = λ h k l. cc;
      settled = inr (record { retry = refl; ended = delivered-pending refl });
    },
  )
  chosen-Outcome now attempt false true f delay p q r = (
    settled_as failed now f f.error,
    refl,
    λ d. record {
      id = refl;
      webhook_id = refl;
      attempts = refl;
      good = λ h. cc;
      bad = λ h k. refl;
      again = λ h k l. ground (arith, q, k, l);
      settled = inr (record { retry = refl; ended = failed-pending refl });
    },
  )
  chosen-Outcome now attempt false false f delay p q r =
      let (x, found) = r refl in
      (
        retried_at sender now f x,
        rw found refl,
        λ d. record {
          id = refl;
          webhook_id = refl;
          attempts = refl;
          good = λ h. cc;
          bad = λ h k. ground (arith, q, k);
          again = λ h k l. refl;
          settled = inl (ground (arith, q));
        },
      )

  -- From the first attempt on, no attempt fails to find its delay.
  pub values_for-Outcome :
      (now attempt : ℕ) (f : Finding)
      → 1 ≤ attempt
      → (g : Delivery → Delivery) × (values_for sender now attempt f ≡ some g)
        × ((d : Delivery) → Outcome now attempt f d (g d))
  unfolding values_for max_attempts
  values_for-Outcome now attempt f h =
      chosen-Outcome now attempt f.delivered (f.terminal || leb (max_attempts sender) attempt) f
        (delay_at sender.retry_delays (attempt - 1)) refl refl
        λ q. delay_at-some sender.retry_delays (attempt - 1) (early q)
    where
      early :
          (f.terminal || leb (max_attempts sender) attempt) ≡ false
          → attempt - 1 < length sender.retry_delays
      early q = ground (arith, q, h)
