-- ===== src/Base/Counters.antt =====
-- Numbers under text keys: Redis counters and expiries.
use bigrag.Base.{
  ℕ, suc, String, ◌≡◌, refl, List, [], ◌∷◌, Option, none, some, text_eq, eq_iff, if◌then◌else◌,
  arith,
}

abbrev pub Counters : Type 0
Counters = List (String × ℕ)

-- GET
unfoldable pub find : String → Counters → Option ℕ
find k [] = none
find k ((j, n) ∷ c) = if text_eq j k then some n else find k c

-- SET
unfoldable pub set : String → ℕ → Counters → Counters
set k v [] = (k, v) ∷ []
set k v ((j, n) ∷ c) = if text_eq j k then (j, v) ∷ c else (j, n) ∷ set k v c

-- DEL
unfoldable pub delete : String → Counters → Counters
delete k [] = []
delete k ((j, n) ∷ c) = let rest = delete k c in if text_eq j k then rest else (j, n) ∷ rest

abbrev pub or_zero : Option ℕ → ℕ
or_zero none = 0
or_zero (some n) = n

-- A counter that is not there counts as 0.
unfoldable pub value : String → Counters → ℕ
unfolding find
value k c = or_zero (find k c)

-- INCR
unfoldable pub bump : String → Counters → Counters
unfolding set value
bump k c = set k (suc (value k c)) c

pub find-set :
    (k j : String) (v : ℕ) (c : Counters)
    → find j (set k v c) ≡ (if text_eq k j then some v else find j c)
unfolding find set
find-set k j v [] = refl
find-set k j v ((i, w) ∷ c) = ground (arith, eq_iff k j, eq_iff i k, eq_iff i j, find-set k j v c)

find-or_zero-set :
    (k j : String) (v : ℕ) (c : Counters)
    → or_zero (find j (set k v c)) ≡ (if text_eq k j then v else or_zero (find j c))
find-or_zero-set k j v c = ground (arith, find-set k j v c)

pub value_lem : (k : String) (c : Counters) → value k c ≡ or_zero (find k c)
unfolding value
value_lem k c = refl

bump_lem : (k : String) (c : Counters) → bump k c ≡ set k (suc (value k c)) c
unfolding bump
bump_lem k c = refl

pub value-bump :
    (k j : String) (c : Counters)
    → value j (bump k c) ≡ (if text_eq k j then suc (value k c) else value j c)
value-bump k j c =
    rw (bump_lem, value_lem j (set k (suc (value k c)) c))
      (rw find-or_zero-set (rw (value_lem j c)))
