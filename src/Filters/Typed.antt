-- ===== src/Filters/Typed.antt =====
-- What an accepted filter consists of.
use bigrag.Base.{
  String, ◌≡◌, refl, Bool, true, false, not, some, List, [], ◌∷◌, ◌++◌, All, if◌then◌else◌, subst,
}
use bigrag.Base.Json.{Value, array, object, Items, nil, cons, Fields, end, field}
use bigrag.Base.Result.{Result, ok, err, >>=-eq-ok, ◌>>=◌, ◌>>◌, raise_if}
use bigrag.Filters.{
  FilterOperator, eq, ne, gt, gte, lt, lte, in_list, FilterCondition, FilterError, condition,
  is_safe_field, validate_field, is_scalar, is_number, validate_scalar, validate_items,
  scalar_condition, ordered, in_condition, operator_condition, operator_conditions,
  value_conditions, all_conditions, expression, build_filter,
}

abbrev pub AllScalar : Items → Type 0
AllScalar nil = Unit
AllScalar (cons v vs) = (is_scalar v ≡ true) × AllScalar vs

-- The values that an operator takes: scalars, numbers for the orders, lists of scalars.
abbrev pub Takes : FilterOperator → Value → Type 0
Takes eq v = is_scalar v ≡ true
Takes ne v = is_scalar v ≡ true
Takes gt v = is_number v ≡ true
Takes gte v = is_number v ≡ true
Takes lt v = is_number v ≡ true
Takes lte v = is_number v ≡ true
Takes in_list v = (vs : Items) × (v ≡ array vs) × AllScalar vs

pub record IsTyped (c : FilterCondition) : Type 0 where
  pub safe : is_safe_field c.name ≡ true
  pub takes : Takes c.operator c.value

raise_if-ok : (b : Bool) (e : FilterError) → raise_if (not b) e ≡ ok tt → b ≡ true
raise_if-ok true e h = refl
raise_if-ok false e h = cc

validate_items-AllScalar : (vs : Items) → validate_items vs ≡ ok tt → AllScalar vs
unfolding validate_items validate_scalar
validate_items-AllScalar nil h = tt
validate_items-AllScalar (cons v vs) h =
    let (t, a, b) = >>=-eq-ok (validate_scalar v "$in") (λ t. validate_items vs) h in
    (raise_if-ok (is_scalar v) _ a, validate_items-AllScalar vs b)

-- A result that, if there is one, is a condition on the field with a value that its operator takes.
abbrev Good : String → Result FilterError FilterCondition → Type 0
Good name r = (c : FilterCondition) → r ≡ ok c → (c.name ≡ name) × Takes c.operator c.value

Good-if :
    (name : String) (b : Bool) (x y : Result FilterError FilterCondition)
    → Good name x
    → Good name y
    → Good name (if b then x else y)
Good-if name true x y p q = p
Good-if name false x y p q = q

checked-Good :
    (name : String) (operator : FilterOperator) (v : Value) (first : Result FilterError (Unit {0}))
    → (first ≡ ok tt → Takes operator v)
    → Good name (first >>= λ t. ok (condition name operator v))
checked-Good name operator v (err e) k c h = cc
checked-Good name operator v (ok _) k c h =
    subst {A = Result FilterError FilterCondition} (λ r. held r) h (refl, k refl)
  where
    held : Result FilterError FilterCondition → Type 0
    held (ok d) = (d.name ≡ name) × Takes d.operator d.value
    held (err e) = Unit

ordered-Good :
    (name op : String) (operator : FilterOperator) (v : Value)
    → (is_number v ≡ true → Takes operator v)
    → Good name (ordered name op operator v)
ordered-Good name op operator v k =
    checked-Good name operator v _ λ h. k (raise_if-ok (is_number v) _ h)

scalar_condition-Good :
    (name op : String) (operator : FilterOperator) (v : Value)
    → (is_scalar v ≡ true → Takes operator v)
    → Good name (scalar_condition name op operator v)
unfolding validate_scalar
scalar_condition-Good name op operator v k =
    checked-Good name operator v _ λ h. k (raise_if-ok (is_scalar v) _ h)

in_condition-Good : (name : String) (v : Value) → Good name (in_condition name v)
in_condition-Good name (array vs) =
    checked-Good name in_list (array vs) (validate_items vs)
      λ h. (vs, refl, validate_items-AllScalar vs h)
in_condition-Good name Value.null = λ c h. cc
in_condition-Good name (Value.boolean b) = λ c h. cc
in_condition-Good name (Value.natural n) = λ c h. cc
in_condition-Good name (Value.negative n) = λ c h. cc
in_condition-Good name (Value.float n) = λ c h. cc
in_condition-Good name (Value.text n) = λ c h. cc
in_condition-Good name (object n) = λ c h. cc

err-Good : (name : String) (e : FilterError) → Good name (err e)
err-Good name e c h = cc

operator_condition-Good : (name op : String) (v : Value) → Good name (operator_condition name op v)
unfolding operator_condition
operator_condition-Good name op v = Good-if name _ _ _ (scalar_condition-Good name op eq v λ h. h) (
    Good-if name _ _ _ (scalar_condition-Good name op ne v λ h. h) (
      Good-if name _ _ _ (ordered-Good name op gt v λ h. h) (
        Good-if name _ _ _ (ordered-Good name op gte v λ h. h) (
          Good-if name _ _ _ (ordered-Good name op lt v λ h. h) (
            Good-if name _ _ _ (ordered-Good name op lte v λ h. h)
              (Good-if name _ _ _ (in_condition-Good name v) (err-Good name _)))))))

good-IsTyped :
    (name : String) (c : FilterCondition)
    → is_safe_field name ≡ true
    → (c.name ≡ name) × Takes c.operator c.value
    → IsTyped c
good-IsTyped name c safe good = record { safe = rw (good.0) safe; takes = good.1 }

-- Every list of conditions that comes back is typed.
abbrev AllTyped : Result FilterError (List FilterCondition) → Type 0
AllTyped (ok cs) = All IsTyped cs
AllTyped (err e) = Unit

operator_conditions-AllTyped :
    (name : String) (d : Fields) → is_safe_field name ≡ true → AllTyped (operator_conditions name d)
unfolding operator_conditions
operator_conditions-AllTyped name end safe = tt
operator_conditions-AllTyped name (field op v rest) safe =
    one (operator_condition name op v) (operator_condition-Good name op v)
      (operator_conditions name rest) (operator_conditions-AllTyped name rest safe)
  where
    one :
        (r : Result FilterError FilterCondition)
        → Good name r
        → (q : Result FilterError (List FilterCondition)) → AllTyped q
        → AllTyped (r >>= λ c. q >>= λ cs. ok (c ∷ cs))
    one (err e) g q t = tt
    one (ok c) g (err e) t = tt
    one (ok c) g (ok cs) t = (good-IsTyped name c safe (g c refl), t)

value_conditions-AllTyped :
    (name : String) (v : Value) → is_safe_field name ≡ true → AllTyped (value_conditions name v)
unfolding is_scalar
value_conditions-AllTyped name (object end) safe = tt
value_conditions-AllTyped name (object (field op v rest)) safe =
    operator_conditions-AllTyped name (field op v rest) safe
value_conditions-AllTyped name Value.null safe = tt
value_conditions-AllTyped name (array vs) safe = tt
value_conditions-AllTyped name (Value.boolean b) safe = (record { safe = safe; takes = refl }, tt)
value_conditions-AllTyped name (Value.natural n) safe = (record { safe = safe; takes = refl }, tt)
value_conditions-AllTyped name (Value.negative n) safe = (record { safe = safe; takes = refl }, tt)
value_conditions-AllTyped name (Value.float n) safe = (record { safe = safe; takes = refl }, tt)
value_conditions-AllTyped name (Value.text n) safe = (record { safe = safe; takes = refl }, tt)

All-append :
    (xs ys : List FilterCondition) → All IsTyped xs → All IsTyped ys → All IsTyped (xs ++ ys)
All-append [] ys a b = b
All-append (x ∷ xs) ys a b = (a.0, All-append xs ys a.1 b)

all_conditions-AllTyped : (filters : Fields) → AllTyped (all_conditions filters)
unfolding all_conditions validate_field
all_conditions-AllTyped end = tt
all_conditions-AllTyped (field key v rest) =
    checked (is_safe_field key) refl (value_conditions key v) (all_conditions rest)
      (value_conditions-AllTyped key v) (all_conditions-AllTyped rest)
  where
    checked :
        (b : Bool)
        → is_safe_field key ≡ b
        → (r q : Result FilterError (List FilterCondition))
        → (is_safe_field key ≡ true → AllTyped r)
        → AllTyped q
        → AllTyped (
            raise_if (not b) (FilterError.invalid_field key)
            >> (r >>= λ cs. q >>= λ ds. ok (cs ++ ds)))
    checked false e r q t u = tt
    checked true e (err x) q t u = tt
    checked true e (ok cs) (err x) t u = tt
    checked true e (ok cs) (ok ds) t u = All-append cs ds (t e) u

-- Every condition of an accepted filter is on a safe field and has a value that its operator takes: a
-- scalar for equality, a number for an order, a list of scalars for `$in`.
pub build_filter-IsTyped :
    (filters : Fields) (cs : List FilterCondition)
    → build_filter filters ≡ ok (some cs)
    → All IsTyped cs
unfolding build_filter
build_filter-IsTyped filters cs h =
    built (all_conditions filters) (all_conditions-AllTyped filters) h
  where
    built :
        (r : Result FilterError (List FilterCondition))
        → AllTyped r
        → (r >>= λ ds. ok (expression ds)) ≡ ok (some cs)
        → All IsTyped cs
    built (err e) t e' = cc
    built (ok []) t e = cc
    built (ok (d ∷ ds)) t e = let same : d ∷ ds ≡ cs = cc in subst (λ xs. All IsTyped xs) same t
