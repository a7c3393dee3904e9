-- ===== src/Webhook/Delivery/Claims.antt =====
-- What a claim takes, and what a second claim finds.
use bigrag.Base.{
  ℕ, zero, suc, ◌+◌, ◌<◌, ◌≡◌, refl, String, Bool, true, false, Option, none, some, List, [], ◌∷◌,
  if◌then◌else◌, arith, ◌∙◌, ap, ◌⊎◌, Bool-cases, Option-cases, inl, inr,
}
use bigrag.Webhook.Delivery.{
  Delivery, Webhook, Item, Sender, due, find_webhook, claim_seconds, claimed, claim, item_of,
}

module _ (sender : Sender) (webhooks : List Webhook) where
  -- The rows that a claim leaves alone.
  unfoldable pub left : ℕ → Option String → ℕ → List Delivery → List Delivery
  left now id zero ds = ds
  left now id (suc limit) [] = []
  left now id (suc limit) (d ∷ ds) =
      let rest = left now id limit ds in
      let others = left now id (suc limit) ds in
      elim (find_webhook d.webhook_id webhooks) [
        | none ↦ d ∷ others
        | some webhook ↦ if due now id d then rest else d ∷ others
      ]

  claimed-not_due :
      (now t : ℕ) (id : Option String) (d : Delivery)
      → t < now + claim_seconds sender
      → due t id (claimed sender now d) ≡ false
  unfolding due claimed
  claimed-not_due now t id d h = ground (arith, h)

  abbrev pub items : ℕ → Option String → ℕ → List Delivery → List Item
  items t id m ds = (claim sender webhooks t id m ds).1

  abbrev pub rows : ℕ → Option String → ℕ → List Delivery → List Delivery
  rows t id m ds = (claim sender webhooks t id m ds).0

  -- Whether a claim that has not reached its limit takes the row.
  abbrev takes : ℕ → Option String → Delivery → Bool
  takes now id d = elim (find_webhook d.webhook_id webhooks) [
    | none ↦ false
    | some webhook ↦ due now id d
  ]

  items-skip :
      (t m : ℕ) (id : Option String) (d : Delivery) (ds : List Delivery)
      → takes t id d ≡ false
      → items t id m (d ∷ ds) ≡ items t id m ds
  unfolding claim
  items-skip t zero id d ds h = refl
  items-skip t (suc m) id d ds h = elim (Option-cases (find_webhook d.webhook_id webhooks)) [
    | inl n ↦ rw (n, items) refl
    | inr (w, y) ↦ rw (y, skipped w y, items) refl
  ]
    where
      skipped : (w : Webhook) → find_webhook d.webhook_id webhooks ≡ some w → due t id d ≡ false
      skipped w y = cc

  items-both :
      (t m : ℕ) (id : Option String) (d : Delivery) (ds es : List Delivery)
      → ((k : ℕ) → items t id k ds ≡ items t id k es)
      → items t id m (d ∷ ds) ≡ items t id m (d ∷ es)
  unfolding claim
  items-both t zero id d ds es h = refl
  items-both t (suc m) id d ds es h = elim (Option-cases (find_webhook d.webhook_id webhooks)) [
    | inl n ↦ rw (n, items) (h (suc m))
    | inr (w, y) ↦ elim (Bool-cases (due t id d)) [
      | inl e ↦ rw (y, e, items) (ap (λ l. item_of sender d w ∷ l) (h m))
      | inr k ↦ rw (y, k, items) (h (suc m))
    ]
  ]

  claimed-not_taken :
      (now t : ℕ) (id : Option String) (d : Delivery)
      → t < now + claim_seconds sender
      → takes t id (claimed sender now d) ≡ false
  claimed-not_taken now t id d h =
      elim (Option-cases (find_webhook (claimed sender now d).webhook_id webhooks)) [
        | inl n ↦ rw (n, takes) refl
        | inr (w, y) ↦ rw (y, takes) (claimed-not_due now t id d h)
      ]

  rows-left :
      (now n : ℕ) (id : Option String) (d : Delivery) (ds : List Delivery)
      → ((takes now id d ≡ true)
          × (rows now id (suc n) (d ∷ ds) ≡ claimed sender now d ∷ rows now id n ds)
          × (left now id (suc n) (d ∷ ds) ≡ left now id n ds))
        ⊎ ((rows now id (suc n) (d ∷ ds) ≡ d ∷ rows now id (suc n) ds)
            × (left now id (suc n) (d ∷ ds) ≡ d ∷ left now id (suc n) ds))
  unfolding claim left
  rows-left now n id d ds = elim (Option-cases (find_webhook d.webhook_id webhooks)) [
    | inl k ↦ inr (rw (k, rows) refl, rw (k, left) refl)
    | inr (w, y) ↦ elim (Bool-cases (due now id d)) [
      | inl e ↦ inl (rw (y, takes) e, rw (y, e, rows) refl, rw (y, e, left) refl)
      | inr k ↦ inr (rw (y, k, rows) refl, rw (y, k, left) refl)
    ]
  ]

  none_taken :
      (now : ℕ) (id : Option String) (ds : List Delivery) → rows now id 0 ds ≡ left now id 0 ds
  unfolding claim left
  none_taken now id ds = refl

  no_rows : (now n : ℕ) (id : Option String) → rows now id (suc n) [] ≡ left now id (suc n) []
  unfolding claim left
  no_rows now n id = refl

  -- While the claims of the time `now` run, a second claim takes the rows that the first one left.
  pub claim-claim :
      (now t n m : ℕ) (id other : Option String) (ds : List Delivery)
      → t < now + claim_seconds sender
      → items t other m (rows now id n ds) ≡ items t other m (left now id n ds)
  claim-claim now t zero m id other ds h = rw (none_taken now id ds) refl
  claim-claim now t (suc n) m id other [] h = rw (no_rows now n id) refl
  claim-claim now t (suc n) m id other (d ∷ ds) h = elim (rows-left now n id d ds) [
    | inl (_, p, q) ↦
        rw (p, q)
          (items-skip t m other (claimed sender now d) (rows now id n ds)
              (claimed-not_taken now t other d h)
            ∙ claim-claim now t n m id other ds h)
    | inr (p, q) ↦
        rw (p, q)
          (items-both t m other d (rows now id (suc n) ds) (left now id (suc n) ds)
            (λ k. claim-claim now t (suc n) k id other ds h))
  ]
