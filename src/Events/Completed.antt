-- ===== src/Events/Completed.antt =====
-- The keys that were completed: there are never too many, none twice, and the last one is the newest.
use bigrag.Base.{
  ℕ, suc, ◌≤◌, ◌≡◌, inl, inr, refl, Bool, true, false, not, String, List, [], ◌∷◌, ◌++◌, text_eq,
  eq_iff, eq_refl, ltb, length, length-append, keep, any_of, All, Bool-cases, arith,
}
use bigrag.Events.{
  IngestionEvent, EventBus, completed_max_entries, trim, mark_completed, publish, complete,
  hear_complete, hear_event,
}

-- Two keys that differ.
abbrev IsOther : String → String → Type 0
IsOther a b = text_eq a b ≡ false

abbrev pub IsDistinct : List String → Type 0
IsDistinct [] = Unit
IsDistinct (k ∷ keys) = All (IsOther k) keys × IsDistinct keys

-- No more keys than allowed, none twice.
abbrev pub IsBounded : List String → Type 0
IsBounded keys = (length keys ≤ completed_max_entries) × IsDistinct keys

flip : (a b : String) → IsOther a b → IsOther b a
flip a b h = ground (arith, h, eq_iff a b, eq_iff b a)

length-trim : (most : ℕ) (keys : List String) → length (trim most keys) ≤ most
unfolding trim
length-trim most [] = omega arith
length-trim most (k ∷ keys) = ground (arith, length-trim most keys)

IsDistinct-trim : (most : ℕ) (keys : List String) → IsDistinct keys → IsDistinct (trim most keys)
unfolding trim
IsDistinct-trim most [] h = tt
IsDistinct-trim most (k ∷ keys) h = elim (Bool-cases (ltb most (length (k ∷ keys)))) [
  | inl y ↦ rw y (IsDistinct-trim most keys h.1)
  | inr n ↦ rw n h
]

All-append :
    (a b : String) (keys : List String)
    → All (IsOther a) keys
    → IsOther a b
    → All (IsOther a) (keys ++ (b ∷ []))
All-append a b [] h g = (g, tt)
All-append a b (k ∷ keys) h g = (h.0, All-append a b keys h.1 g)

IsDistinct-append :
    (key : String) (keys : List String)
    → IsDistinct keys
    → All (IsOther key) keys
    → IsDistinct (keys ++ (key ∷ []))
IsDistinct-append key [] h g = (tt, tt)
IsDistinct-append key (k ∷ keys) h g =
    (All-append k key keys h.0 (flip key k g.0), IsDistinct-append key keys h.1 g.1)

any_of-none :
    (key : String) (keys : List String) → any_of (text_eq key) keys ≡ false → All (IsOther key) keys
any_of-none key [] h = tt
any_of-none key (k ∷ keys) h = elim (Bool-cases (text_eq key k)) [
  | inl y ↦ absurd (ground (arith, rw y at h))
  | inr n ↦ (n, any_of-none key keys (rw n at h))
]

-- The other keys.
abbrev without : String → List String → List String
without key keys = keep (λ k. not (text_eq key k)) keys

All-without :
    (a key : String) (keys : List String)
    → All (IsOther a) keys
    → All (IsOther a) (without key keys)
All-without a key [] h = tt
All-without a key (k ∷ keys) h = elim (Bool-cases (text_eq key k)) [
  | inl y ↦ rw y (All-without a key keys h.1)
  | inr n ↦ rw n (h.0, All-without a key keys h.1)
]

IsDistinct-without :
    (key : String) (keys : List String) → IsDistinct keys → IsDistinct (without key keys)
IsDistinct-without key [] h = tt
IsDistinct-without key (k ∷ keys) h = elim (Bool-cases (text_eq key k)) [
  | inl y ↦ rw y (IsDistinct-without key keys h.1)
  | inr n ↦ rw n (All-without k key keys h.0, IsDistinct-without key keys h.1)
]

without-IsOther : (key : String) (keys : List String) → All (IsOther key) (without key keys)
without-IsOther key [] = tt
without-IsOther key (k ∷ keys) = elim (Bool-cases (text_eq key k)) [
  | inl y ↦ rw y (without-IsOther key keys)
  | inr n ↦ rw n (n, without-IsOther key keys)
]

length-without-le : (key : String) (keys : List String) → length (without key keys) ≤ length keys
length-without-le key [] = omega arith
length-without-le key (k ∷ keys) = ground (arith, length-without-le key keys)

length-without-lt :
    (key : String) (keys : List String)
    → any_of (text_eq key) keys ≡ true
    → suc (length (without key keys)) ≤ length keys
length-without-lt key [] h = absurd (ground (arith, h))
length-without-lt key (k ∷ keys) h = elim (Bool-cases (text_eq key k)) [
  | inl y ↦ rw y (omega (arith, length-without-le key keys))
  | inr n ↦ rw n (omega (arith, length-without-lt key keys (rw n at h)))
]

-- Marking a key keeps the bound and lists no key twice.
pub mark_completed-IsBounded :
    (key : String) (keys : List String) → IsBounded keys → IsBounded (mark_completed key keys)
unfolding mark_completed
mark_completed-IsBounded key keys h = elim (Bool-cases (any_of (text_eq key) keys)) [
  | inl y ↦ rw y (
    omega (arith, length-append (without key keys) (key ∷ []), length-without-lt key keys y, h.0),
    IsDistinct-append key (without key keys) (IsDistinct-without key keys h.1)
        (without-IsOther key keys),
  )
  | inr n ↦ rw n (
    length-trim completed_max_entries (keys ++ (key ∷ [])),
    IsDistinct-trim completed_max_entries (keys ++ (key ∷ []))
        (IsDistinct-append key keys h.1 (any_of-none key keys n)),
  )
]

-- What a bus does: its own calls, and the messages that it hears.
pub data BusStep (F : Type 0) : Type 0 where
  publishes : IngestionEvent F → BusStep F
  completes : String → BusStep F
  hears_complete : String → BusStep F
  hears_event : IngestionEvent F → BusStep F

module _ {F : Type 0} where
  unfoldable pub run_step : BusStep F → EventBus F → EventBus F
  run_step (publishes e) bus = publish e bus
  run_step (completes id) bus = complete id bus
  run_step (hears_complete key) bus = hear_complete key bus
  run_step (hears_event e) bus = hear_event e bus

  abbrev pub run_steps : List (BusStep F) → EventBus F → EventBus F
  run_steps [] bus = bus
  run_steps (x ∷ steps) bus = run_steps steps (run_step x bus)

  abbrev pub new_bus : Bool → EventBus F
  new_bus connected = record { connected = connected; latest = []; completed = []; published = [] }

  complete-IsBounded :
      (id : String) (bus : EventBus F)
      → IsBounded bus.completed
      → IsBounded (complete id bus).completed
  unfolding complete
  complete-IsBounded id bus h = elim (Bool-cases (any_of (text_eq id) bus.completed)) [
    | inl y ↦ rw y h
    | inr n ↦ rw n (mark_completed-IsBounded id bus.completed h)
  ]

  hear_complete-IsBounded :
      (key : String) (bus : EventBus F)
      → IsBounded bus.completed
      → IsBounded (hear_complete key bus).completed
  unfolding hear_complete
  hear_complete-IsBounded key bus h = elim (Bool-cases (any_of (text_eq key) bus.completed)) [
    | inl y ↦ rw y h
    | inr n ↦ rw n (mark_completed-IsBounded key bus.completed h)
  ]

  run_step-IsBounded :
      (x : BusStep F) (bus : EventBus F)
      → IsBounded bus.completed
      → IsBounded (run_step x bus).completed
  unfolding run_step publish hear_event
  run_step-IsBounded (publishes e) bus h = h
  run_step-IsBounded (completes id) bus h = complete-IsBounded id bus h
  run_step-IsBounded (hears_complete key) bus h = hear_complete-IsBounded key bus h
  run_step-IsBounded (hears_event e) bus h = h

  run_steps-IsBounded :
      (steps : List (BusStep F)) (bus : EventBus F)
      → IsBounded bus.completed
      → IsBounded (run_steps steps bus).completed
  run_steps-IsBounded [] bus h = h
  run_steps-IsBounded (x ∷ steps) bus h =
      run_steps-IsBounded steps (run_step x bus) (run_step-IsBounded x bus h)

-- A list with the key at its end has it.
any_of-last : (key : String) (keys : List String) → any_of (text_eq key) (keys ++ (key ∷ [])) ≡ true
any_of-last key [] = rw (eq_refl key) refl
any_of-last key (k ∷ keys) = ground (arith, any_of-last key keys)

trim-last :
    (most : ℕ) (key : String) (keys : List String)
    → any_of (text_eq key) (trim (suc most) (keys ++ (key ∷ []))) ≡ true
unfolding trim
trim-last most key [] = ground (arith, eq_refl key)
trim-last most key (k ∷ keys) =
    elim (Bool-cases (ltb (suc most) (length (k ∷ (keys ++ (key ∷ [])))))) [
      | inl y ↦ rw y (trim-last most key keys)
      | inr n ↦ rw n (any_of-last key (k ∷ keys))
    ]

module _ {F : Type 0} where
  complete-known :
      (id : String) (bus : EventBus F) → any_of (text_eq id) (complete id bus).completed ≡ true
  unfolding complete mark_completed completed_max_entries
  complete-known id bus = elim (Bool-cases (any_of (text_eq id) bus.completed)) [
    | inl y ↦ rw y y
    | inr n ↦ rw n (trim-last 9999 id bus.completed)
  ]

  -- Whatever a new bus publishes, completes and hears, it remembers at most completed_max_entries
  -- completed keys, none twice, and the one that it completes now is among them.
  pub complete-run_steps :
      (connected : Bool) (steps : List (BusStep F)) (id : String)
      → let bus = complete id (run_steps steps (new_bus connected)) in
        IsBounded bus.completed × (any_of (text_eq id) bus.completed ≡ true)
  complete-run_steps connected steps id = (
    complete-IsBounded id (run_steps steps (new_bus connected))
        (run_steps-IsBounded steps (new_bus connected) (omega arith, tt)),
    complete-known id (run_steps steps (new_bus connected)),
  )
