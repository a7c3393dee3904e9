-- ===== src/Filters.antt =====
-- The filters of a search: api/bigrag/services/_retrieval_filters.py.
pub mod Typed
mod Scenarios
use Prim.Native.Char.{Char, code}
use bigrag.Base.{
  ℕ, String, Bool, true, false, not, ◌&&◌, ◌||◌, Option, none, some, List, [], ◌∷◌, ◌++◌, text_eq,
  leb, ◌==◌, if◌then◌else◌,
}
use bigrag.Base.Text.{is_empty}
use bigrag.Base.Json.{
  Value, null, boolean, natural, negative, float, text, array, object, Items, nil, cons, Fields,
  end, field,
}
use bigrag.Base.Result.{Result, ok, err, ◌>>=◌, ◌>>◌, raise_if}

pub data FilterOperator : Type 0 where
  eq ne gt gte lt lte in_list : FilterOperator

pub record FilterCondition : Type 0 where
  pub name : String
  pub operator : FilterOperator
  pub value : Value

-- The `ValueError`s, by their messages.
pub data FilterError : Type 0 where
  invalid_field no_operators needs_scalar needs_number needs_list unsupported_operator needs_value :
      String → FilterError

-- `_SAFE_FIELD_RE`, whose `$` also stands in front of a line feed at the end.
abbrev is_between : ℕ → ℕ → ℕ → Bool
is_between low high n = leb low n && leb n high

abbrev is_start : Char → Bool
is_start c = is_between 65 90 (code c) || is_between 97 122 (code c) || code c == 95

abbrev is_word : Char → Bool
is_word c = is_start c || is_between 48 57 (code c)

unfoldable pub safe_tail : String → Bool
safe_tail String.[] = true
safe_tail (String.◌∷◌ c s) =
    let rest = safe_tail s in if is_word c then rest else code c == 10 && is_empty s

unfoldable pub is_safe_field : String → Bool
unfolding safe_tail
is_safe_field String.[] = false
is_safe_field (String.◌∷◌ c s) = is_start c && safe_tail s

unfoldable pub validate_field : String → Result FilterError (Unit {0})
unfolding is_safe_field
validate_field key = raise_if (not (is_safe_field key)) (invalid_field key)

-- `isinstance(val, (str, int, float, bool))`
unfoldable pub is_scalar : Value → Bool
is_scalar null = false
is_scalar (boolean b) = true
is_scalar (natural n) = true
is_scalar (negative n) = true
is_scalar (float bits) = true
is_scalar (text s) = true
is_scalar (array xs) = false
is_scalar (object d) = false

-- `isinstance(val, (int, float)) and not isinstance(val, bool)`
unfoldable pub is_number : Value → Bool
is_number null = false
is_number (boolean b) = false
is_number (natural n) = true
is_number (negative n) = true
is_number (float bits) = true
is_number (text s) = false
is_number (array xs) = false
is_number (object d) = false

unfoldable pub validate_scalar : Value → String → Result FilterError (Unit {0})
unfolding is_scalar
validate_scalar val op = raise_if (not (is_scalar val)) (needs_scalar op)

unfoldable pub validate_items : Items → Result FilterError (Unit {0})
unfolding validate_scalar
validate_items nil = ok tt
validate_items (cons v vs) = do validate_scalar v "$in"; validate_items vs

abbrev pub condition : String → FilterOperator → Value → FilterCondition
condition name operator value = record { name = name; operator = operator; value = value }

abbrev pub ordered : String → String → FilterOperator → Value → Result FilterError FilterCondition
ordered name op operator val = do
  raise_if (not (is_number val)) (needs_number op)
  ok (condition name operator val)

abbrev pub scalar_condition :
    String → String → FilterOperator → Value → Result FilterError FilterCondition
scalar_condition name op operator val = do validate_scalar val op; ok (condition name operator val)

abbrev pub in_condition : String → Value → Result FilterError FilterCondition
in_condition name (array vs) = do validate_items vs; ok (condition name in_list (array vs))
in_condition name val = err (needs_list "$in")

-- One pair of an operator object.
unfoldable pub operator_condition : String → String → Value → Result FilterError FilterCondition
unfolding validate_scalar is_number validate_items
operator_condition name op val =
    if text_eq op "$eq"
    then scalar_condition name op eq val
    else if text_eq op "$ne"
    then scalar_condition name op ne val
    else if text_eq op "$gt"
    then ordered name op gt val
    else if text_eq op "$gte"
    then ordered name op gte val
    else if text_eq op "$lt"
    then ordered name op lt val
    else if text_eq op "$lte"
    then ordered name op lte val
    else if text_eq op "$in"
    then in_condition name val
    else err (unsupported_operator op)

unfoldable pub operator_conditions : String → Fields → Result FilterError (List FilterCondition)
unfolding operator_condition
operator_conditions name end = ok []
operator_conditions name (field op val rest) = do
  c ← operator_condition name op val
  cs ← operator_conditions name rest
  ok (c ∷ cs)

abbrev pub object_conditions : String → Fields → Result FilterError (List FilterCondition)
object_conditions name end = err (no_operators name)
object_conditions name (field op val rest) = operator_conditions name (field op val rest)

abbrev pub value_conditions : String → Value → Result FilterError (List FilterCondition)
value_conditions name (object d) = object_conditions name d
value_conditions name value =
    if is_scalar value then ok (condition name eq value ∷ []) else err (needs_value name)

-- The loop of `build_filter`.
unfoldable pub all_conditions : Fields → Result FilterError (List FilterCondition)
unfolding validate_field is_scalar operator_conditions
all_conditions end = ok []
all_conditions (field key value rest) = do
  validate_field key
  cs ← value_conditions key value
  ds ← all_conditions rest
  ok (cs ++ ds)

abbrev pub expression : List FilterCondition → Option (List FilterCondition)
expression [] = none
expression (c ∷ cs) = some (c ∷ cs)

-- No expression where there are no conditions.
unfoldable pub build_filter : Fields → Result FilterError (Option (List FilterCondition))
unfolding all_conditions
build_filter filters = do cs ← all_conditions filters; ok (expression cs)
