-- ===== src/Ingest/Admission.antt =====
-- The admission counter under interleaving: one step for each command that a client of
-- api/bigrag/services/queue_state.py sends to Redis.
use bigrag.Base.{
  ℕ, suc, ◌+◌, ◌-◌, ◌≤◌, ◌<◌, ◌≡◌, refl, Bool, true, false, not, ltb, if◌then◌else◌, arith, ap,
  subst, inl, inr, ◌⊎◌,
}
use bigrag.Base.Result.{Result, ok}
use bigrag.Ingest.Types.{ℤ, pos, negsuc, increment, decrement, State, Failure}
use bigrag.Ingest.State.{admit_inflight}

-- The counter, the clients that were admitted and have not released, those that were refused and have
-- still to send their DECR, and those that saw a count below zero and have still to send SET.
pub record Counter : Type 0 where
  pub value : ℤ
  pub holders : ℕ
  pub refused : ℕ
  pub resets : ℕ

-- `current > max_depth`
unfoldable pub exceeds : ℤ → ℕ → Bool
exceeds (pos n) max_depth = ltb max_depth n
exceeds (negsuc n) max_depth = false

-- `current < 0`
unfoldable pub is_below_zero : ℤ → Bool
is_below_zero (pos n) = false
is_below_zero (negsuc n) = true

-- A command at the depth that its client has read. A release is not checked: a client may send it
-- whether or not it has a place.
pub data Step (max_depth : ℕ) : Counter → Counter → Type 0 where
  incr_admitted :
      (c : Counter)
      → exceeds (increment c.value) max_depth ≡ false
      → Step max_depth c (record c { value = increment c.value; holders = suc c.holders })
  incr_refused :
      (c : Counter)
      → exceeds (increment c.value) max_depth ≡ true
      → Step max_depth c (record c { value = increment c.value; refused = suc c.refused })
  decr_refused :
      (c : Counter) (n : ℕ)
      → c.refused ≡ suc n
      → Step max_depth c (record c { value = decrement c.value; refused = n })
  decr_released :
      (c : Counter)
      → is_below_zero (decrement c.value) ≡ false
      → Step max_depth c (record c { value = decrement c.value; holders = c.holders - 1 })
  decr_below :
      (c : Counter)
      → is_below_zero (decrement c.value) ≡ true
      → Step max_depth c
          (record c { value = decrement c.value; holders = c.holders - 1; resets = suc c.resets })
  set_zero :
      (c : Counter) (n : ℕ)
      → c.resets ≡ suc n
      → Step max_depth c (record c { value = pos 0; resets = n })

-- What the clients can bring about, from a counter that nobody has used; each command has its depth,
-- which is a setting that is read anew.
pub data Reachable : Counter → Type 0 where
  fresh : Reachable (record { value = pos 0; holders = 0; refused = 0; resets = 0 })
  after : (max_depth : ℕ) {c d : Counter} → Reachable c → Step max_depth c d → Reachable d

-- Only a client with a place sends a release.
abbrev pub IsHeld : {max_depth : ℕ} {c d : Counter} → Step max_depth c d → Type 0
IsHeld (decr_released c h) = 0 < c.holders
IsHeld (decr_below c h) = 0 < c.holders
IsHeld _ = Unit

-- The same of all commands, none of which read a depth above `bound`.
abbrev pub IsOrderly : ℕ → {c : Counter} → Reachable c → Type 0
IsOrderly bound fresh = Unit
IsOrderly bound (after max_depth r step) = (max_depth ≤ bound) × IsHeld step × IsOrderly bound r

-- The count is exact, no more clients hold a place than the depth, and nobody resets.
pub record IsSound (max_depth : ℕ) (c : Counter) : Type 0 where
  pub exact : c.value ≡ pos (c.holders + c.refused)
  pub bounded : c.holders ≤ max_depth
  pub no_reset : c.resets ≡ 0

increment-pos : (x : ℤ) (n m : ℕ) → x ≡ pos n → m ≡ suc n → increment x ≡ pos m
unfolding increment
increment-pos x n m e h = rw (e, h) refl

decrement-pos : (x : ℤ) (n m : ℕ) → x ≡ pos n → n ≡ suc m → decrement x ≡ pos m
unfolding decrement
decrement-pos x n m e h = rw (e, h) refl

pos_exceeds : (n max_depth : ℕ) → exceeds (pos n) max_depth ≡ ltb max_depth n
unfolding exceeds
pos_exceeds n max_depth = refl

pos_not_below : (n : ℕ) → is_below_zero (pos n) ≡ false
unfolding is_below_zero
pos_not_below n = refl

Step-IsSound :
    {max_depth bound : ℕ} {c d : Counter} (step : Step max_depth c d)
    → max_depth ≤ bound
    → IsHeld step
    → IsSound bound c
    → IsSound bound d
Step-IsSound {max_depth} (incr_admitted c h) le held s =
    let up =
      increment-pos c.value (c.holders + c.refused) (suc c.holders + c.refused) s.exact
        (omega arith) in
    record {
      exact = up;
      bounded = ground (
        arith,
        h,
        le,
        ap (λ x. exceeds x max_depth) up,
        pos_exceeds (suc c.holders + c.refused) max_depth,
      );
      no_reset = s.no_reset;
    }
Step-IsSound (incr_refused c h) le held s = record {
  exact =
      increment-pos c.value (c.holders + c.refused) (c.holders + suc c.refused) s.exact
        (omega arith);
  bounded = s.bounded;
  no_reset = s.no_reset;
}
Step-IsSound (decr_refused c n h) le held s = record {
  exact = decrement-pos c.value (c.holders + c.refused) (c.holders + n) s.exact (omega (arith, h));
  bounded = s.bounded;
  no_reset = s.no_reset;
}
Step-IsSound (decr_released c k) le held s = record {
  exact =
      decrement-pos c.value (c.holders + c.refused) (c.holders - 1 + c.refused) s.exact
        (omega (arith, held));
  bounded = omega (arith, held, s.bounded);
  no_reset = s.no_reset;
}
Step-IsSound (decr_below c k) le held s =
    let down =
      decrement-pos c.value (c.holders + c.refused) (c.holders - 1 + c.refused) s.exact
        (omega (arith, held)) in
    cc (k, ap is_below_zero down, pos_not_below (c.holders - 1 + c.refused))
Step-IsSound (set_zero c n h) le held s = absurd (omega (arith, h, s.no_reset))

-- As long as only clients with a place send releases, and no command reads a depth above `bound`:
-- however the commands interleave, the count is that of the clients with a place or on their way out,
-- at most `bound` have a place, and the counter is never reset.
pub Reachable-IsSound :
    (bound : ℕ) (c : Counter) (r : Reachable c) → IsOrderly bound r → IsSound bound c
Reachable-IsSound bound _ fresh o = record { exact = refl; bounded = omega arith; no_reset = refl }
Reachable-IsSound bound _ (after max_depth r step) o =
    Step-IsSound step o.0 o.1 (Reachable-IsSound bound _ r o.2)

-- The counter of a state of the queue, for so many clients.
abbrev pub view : State → ℕ → ℕ → Counter
view s holders refused = record {
  value = pos s.inflight;
  holders = holders;
  refused = refused;
  resets = 0;
}

-- What a client's admission has done: one step, or two of which the second takes the first back.
abbrev pub Admitted : ℕ → State → ℕ → ℕ → Result Failure Bool × State → Type 0
Admitted max_depth s holders refused out =
    ((out.0 ≡ ok true) × Step max_depth (view s holders refused) (view out.1 (suc holders) refused))
    ⊎ ((out.0 ≡ ok false)
        × (c : Counter) × Step max_depth (view s holders refused) c
        × Step max_depth c (view out.1 holders refused))

abbrev admission : Bool → Bool → State → Result Failure Bool × State
admission connected full s =
    if not connected
    then (ok true, s)
    else let current = s.inflight + 1 in
      if full
      then (ok false, record s { inflight = current - 1 })
      else (ok true, record s { inflight = current })

admission-Admitted :
    (max_depth holders refused : ℕ) (connected full : Bool) (s : State)
    → connected ≡ true
    → ltb max_depth (s.inflight + 1) ≡ full
    → Admitted max_depth s holders refused (admission connected full s)
unfolding increment decrement exceeds
admission-Admitted max_depth holders refused false full s c f = cc
admission-Admitted max_depth holders refused true true s c f =
    let v = view s holders refused in
    let up : Counter = record v { value = pos (suc s.inflight); refused = suc refused } in
    let down : Step max_depth up (record v { value = pos s.inflight }) =
      decr_refused up refused refl in
    inr (
      refl,
      up,
      incr_refused v (ground (arith, f)),
      subst (λ n. Step max_depth up (record v { value = pos n })) (omega arith) down,
    )
admission-Admitted max_depth holders refused true false s c f =
    let v = view s holders refused in
    let up : Step max_depth v (record v { value = pos (suc s.inflight); holders = suc holders }) =
      incr_admitted v (ground (arith, f)) in
    inl (
      refl,
      subst (λ n. Step max_depth v (record v { value = pos n; holders = suc holders }))
          (omega arith) up,
    )

-- With Redis there, `admit_inflight` is the step of a client that is admitted, or that of one that is
-- refused and its DECR.
pub admit_inflight-Admitted :
    (max_depth holders refused : ℕ) (s : State)
    → s.connected ≡ true
    → Admitted max_depth s holders refused (admit_inflight max_depth s)
unfolding admit_inflight
admit_inflight-Admitted max_depth holders refused s c =
    admission-Admitted max_depth holders refused s.connected (ltb max_depth (s.inflight + 1)) s c
      refl
