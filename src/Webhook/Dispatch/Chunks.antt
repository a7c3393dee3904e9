-- ===== src/Webhook/Dispatch/Chunks.antt =====
-- The chunks in which deliveries are written do not show in the outbox.
use bigrag.Base.{
  ℕ, suc, ◌+◌, ◌≡◌, refl, ap, sym, ◌∙◌, String, Bool, true, false, List, [], ◌∷◌, ◌++◌, leb,
  if◌then◌else◌, length, map, arith,
}
use mathlib.Core.List.{append-nil, append_assoc, map-append}
use bigrag.Webhook.Delivery.{Delivery}
use bigrag.Webhook.Dispatch.{
  Hook, Outbox, Row, delivery_of, row_id, flush, enqueue_rows, enqueue_deliveries, delivery_chunk,
}

joined :
    {A B : Type 0} (d : List B) (f : A → B) (xs ys : List A)
    → d ++ map f (xs ++ ys) ≡ (d ++ map f xs) ++ map f ys
joined d f xs ys =
    ap (λ r. d ++ r) (map-append f xs ys) ∙ sym (append_assoc d (map f xs) (map f ys))

module _ (uuid7 : ℕ → String) where
  -- One row for each webhook, with the next ids.
  abbrev pub rows_for : ℕ → List Hook → List Row
  rows_for next [] = []
  rows_for next (hook ∷ hooks) = (uuid7 next, hook.id) ∷ rows_for (suc next) hooks

module _ (event payload : String) where
  -- Rows written at once, and their ids sent at once.
  abbrev pub written : List Row → Outbox → Outbox
  written rows box = record {
    deliveries = box.deliveries ++ map (delivery_of event payload) rows;
    sent = box.sent ++ map row_id rows;
    next = box.next;
  }

abbrev pub counted : ℕ → Outbox → Outbox
counted n box = record box { next = box.next + n }

module _ (uuid7 : ℕ → String) (event payload : String) where
  box_eq :
      {d e : List Delivery} {x y : List String} {m n : ℕ}
      → d ≡ e
      → x ≡ y
      → m ≡ n
      → Path Outbox
          (record { deliveries = d; sent = x; next = m })
          (record { deliveries = e; sent = y; next = n })
  box_eq p q r = cc

  flush-written :
      (rows : List Row) (box : Outbox)
      → flush event payload rows box ≡ written event payload rows box
  unfolding flush
  flush-written [] box = box_eq (sym (append-nil box.deliveries)) (sym (append-nil box.sent)) refl
  flush-written (r ∷ rows) box = refl

  written-append :
      (xs ys : List Row) (box : Outbox)
      → written event payload (xs ++ ys) box
        ≡ written event payload ys (written event payload xs box)
  written-append xs ys box =
      box_eq (joined box.deliveries (delivery_of event payload) xs ys)
        (joined box.sent row_id xs ys) refl

  rows_for_step :
      (rows : List Row) (next : ℕ) (hook : Hook) (hooks : List Hook)
      → (rows ++ (uuid7 next, hook.id) ∷ []) ++ rows_for uuid7 (suc next) hooks
        ≡ rows ++ rows_for uuid7 next (hook ∷ hooks)
  rows_for_step rows next hook hooks =
      append_assoc rows ((uuid7 next, hook.id) ∷ []) (rows_for uuid7 (suc next) hooks)

  abbrev next_box : Outbox → Outbox
  next_box box = record box { next = suc box.next }

  abbrev added : Hook → List Row → Outbox → List Row
  added hook rows box = rows ++ (uuid7 box.next, hook.id) ∷ []

  one_more :
      (rows : List Row) (box : Outbox) (hook : Hook) (hooks : List Hook)
      → counted (length hooks) (
          written event payload
            (added hook rows box ++ rows_for uuid7 (suc box.next) hooks)
            (next_box box))
        ≡ counted
            (length (hook ∷ hooks))
            (written event payload (rows ++ rows_for uuid7 box.next (hook ∷ hooks)) box)
  one_more rows box hook hooks =
      let step = rows_for_step rows box.next hook hooks in
      box_eq (ap (λ r. box.deliveries ++ map (delivery_of event payload) r) step)
        (ap (λ r. box.sent ++ map row_id r) step) (omega arith)

  either_way :
      (b : Bool) {x y target : Outbox} → x ≡ target → y ≡ target → (if b then x else y) ≡ target
  either_way true p q = p
  either_way false p q = q

  enqueue_rows-written :
      (chunk : ℕ) (hooks : List Hook) (rows : List Row) (box : Outbox)
      → enqueue_rows uuid7 event payload chunk hooks rows box
        ≡ counted (length hooks) (written event payload (rows ++ rows_for uuid7 box.next hooks) box)
  unfolding enqueue_rows
  enqueue_rows-written chunk [] rows box =
      flush-written rows box
      ∙ box_eq
          (ap (λ r. box.deliveries ++ map (delivery_of event payload) r) (sym (append-nil rows)))
          (ap (λ r. box.sent ++ map row_id r) (sym (append-nil rows))) (omega arith)
  enqueue_rows-written chunk (hook ∷ hooks) rows box =
      let c = next_box box in
      let more = added hook rows box in
      let done = one_more rows box hook hooks in
      either_way (leb chunk (length more))
        (rw (flush-written more c)
            (enqueue_rows-written chunk hooks [] (written event payload more c))
          ∙ ap (counted (length hooks))
              (sym (written-append more (rows_for uuid7 (suc box.next) hooks) c))
          ∙ done)
        (enqueue_rows-written chunk hooks more c ∙ done)

  -- In whatever chunks the rows are flushed, the outbox gets one pending delivery for each webhook, in
  -- their order and with the next ids, and the broker gets the ids of all of them in that order.
  pub enqueue_deliveries-written :
      (hooks : List Hook) (box : Outbox)
      → enqueue_deliveries uuid7 event payload hooks box
        ≡ counted (length hooks) (written event payload (rows_for uuid7 box.next hooks) box)
  unfolding enqueue_deliveries
  enqueue_deliveries-written [] box =
      box_eq (sym (append-nil box.deliveries)) (sym (append-nil box.sent)) (omega arith)
  enqueue_deliveries-written (hook ∷ hooks) box =
      enqueue_rows-written delivery_chunk (hook ∷ hooks) [] box
