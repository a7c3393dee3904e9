-- ===== src/Fusion/Scenarios.antt =====
-- Two lists that share an item.
use bigrag.Base.{ℕ, ◌+◌, ◌*◌, ◌/◌, ◌≡◌, String, List, [], ◌∷◌, ltb, arith}
use bigrag.Base.Json.{end}
use bigrag.Fusion.{Scores, Item, ranked, reciprocal_rank_fusion}
use bigrag.Fusion.Entries.{IsDistinct, has_item, is_listed}
use bigrag.Fusion.Ranked.{IsOrder, IsDescending, reciprocal_rank_fusion-ranked}

-- Floats as millionths.
abbrev millionths : Scores ℕ
millionths = record {
  nought = 0;
  one = 1000000;
  add = λ a b. a + b;
  reciprocal = λ n. 1000000 / n;
  quotient = λ m n. (m * 1000000) / n;
  rounded_ratio = λ a b. (a * 1000000) / b;
  lt = ltb;
}

millionths-IsOrder : IsOrder millionths
millionths-IsOrder = record {
  one_way = λ a b h. ground (arith, h);
  chain = λ a b c h g. ground (arith, h, g);
}

abbrev result : String → Item ℕ
result id = record { id = id; score = 0; fields = end }

abbrev two_lists : List (List (Item ℕ))
two_lists = (result "a" ∷ result "b" ∷ []) ∷ (result "c" ∷ result "b" ∷ []) ∷ []

reciprocal_rank_fusion-ranked_example :
    IsDescending millionths (ranked millionths 60 two_lists)
    × IsDistinct (ranked millionths 60 two_lists)
    × (has_item "b" (reciprocal_rank_fusion millionths 60 two_lists) ≡ is_listed "b" two_lists)
reciprocal_rank_fusion-ranked_example =
    reciprocal_rank_fusion-ranked millionths 60 two_lists "b" millionths-IsOrder
