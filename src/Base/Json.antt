-- ===== src/Base/Json.antt =====
-- The values of a JSON document as Python sees them, and dictionaries with text keys.
use bigrag.Base.{
  ℕ, ◌^◌, String, ◌≡◌, refl, Bool, true, false, ◌||◌, Option, none, some, arith, text_eq, eq_iff,
  ltb, ◌==◌, if◌then◌else◌,
}
use bigrag.Base.Text.{is_empty}

-- An `int` is a sign and a magnitude; a `float` is its 64-bit pattern.
mutual
  pub data Value : Type 0 where
    null : Value
    boolean : Bool → Value
    natural : ℕ → Value
    negative : ℕ → Value  -- -(n + 1)
    float : ℕ → Value
    text : String → Value
    array : Items → Value
    object : Fields → Value

  pub data Items : Type 0 where
    nil : Items
    cons : Value → Items → Items

  pub data Fields : Type 0 where
    end : Fields
    field : String → Value → Fields → Fields

-- `d.get(k)`
unfoldable pub lookup : String → Fields → Option Value
lookup k end = none
lookup k (field j v d) = if text_eq j k then some v else lookup k d

-- `d[k] = v`: in place if the key is there, else at the end
unfoldable pub insert : String → Value → Fields → Fields
insert k v end = field k v end
insert k v (field j w d) = if text_eq j k then field j v d else field j w (insert k v d)

pub lookup-insert :
    (k j : String) (v : Value) (d : Fields)
    → lookup j (insert k v d) ≡ (if text_eq k j then some v else lookup j d)
unfolding lookup insert
lookup-insert k j v end = refl
lookup-insert k j v (field i w d) =
    ground (arith, eq_iff k j, eq_iff i k, eq_iff i j, lookup-insert k j v d)

-- A value that is a text, and one that is a text other than "".
abbrev pub as_text : Option Value → Option String
as_text (some (text s)) = some s
as_text _ = none

abbrev pub nonempty : String → Option String
nonempty s = if is_empty s then none else some s

-- `value if isinstance(value, str) and value else None`
abbrev pub nonempty_text : Option Value → Option String
nonempty_text (some (text s)) = nonempty s
nonempty_text _ = none

-- `d.get(k) == s` for a text `s`
abbrev pub is_text : Option Value → String → Bool
is_text (some (text t)) s = text_eq t s
is_text _ s = false

abbrev truthy_items : Items → Bool
truthy_items nil = false
truthy_items (cons v xs) = true

abbrev pub truthy_fields : Fields → Bool
truthy_fields end = false
truthy_fields (field k v d) = true

-- `bool(d.get(k))`; the zeros of `float` are the patterns 0 and 2^63.
unfoldable pub truthy : Option Value → Bool
truthy none = false
truthy (some null) = false
truthy (some (boolean b)) = b
truthy (some (natural n)) = ltb 0 n
truthy (some (negative n)) = true
truthy (some (float n)) = if n == 0 || n == 2 ^ 63 then false else true
truthy (some (text s)) = if is_empty s then false else true
truthy (some (array xs)) = truthy_items xs
truthy (some (object d)) = truthy_fields d
