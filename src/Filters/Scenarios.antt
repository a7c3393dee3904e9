-- ===== src/Filters/Scenarios.antt =====
-- A filter with a scalar and an order, and the theorem of filters at it.
use bigrag.Base.{◌≡◌, refl, some, List, [], ◌∷◌, All}
use bigrag.Base.Json.{text, natural, object, Fields, end, field}
use bigrag.Base.Result.{ok}
use bigrag.Filters.{FilterCondition, FilterOperator, condition, build_filter}
use bigrag.Filters.Typed.{IsTyped, build_filter-IsTyped}

abbrev recent : Fields
recent = field "author" (text "ada") (field "year" (object (field "$gte" (natural 2020) end)) end)

abbrev conditions : List FilterCondition
conditions =
    condition "author" FilterOperator.eq (text "ada")
    ∷ condition "year" FilterOperator.gte (natural 2020)
    ∷ []

built : build_filter recent ≡ ok (some conditions)
unfolding build_filter
built = refl

-- The anchor of the pattern lets a line feed at the end pass.
line_feed :
    build_filter (field "a\n" (text "b") end)
    ≡ ok (some (condition "a\n" FilterOperator.eq (text "b") ∷ []))
unfolding build_filter
line_feed = refl

build_filter-IsTyped_example : All IsTyped conditions
build_filter-IsTyped_example = build_filter-IsTyped recent conditions built
