-- ===== src/Pagination.antt =====
-- Pages of a list: api/bigrag/services/pagination. A cursor names the last row of a page.
pub mod Roundtrip
pub mod Filtered
pub mod Cuts
pub mod Walk
pub mod Answers
mod Scenarios
use Prim.Native.Char.{Char}
use Prim.Native.String.{◌++◌ as text_append}
use bigrag.Base.{
  ℕ, zero, suc, ◌+◌, ◌-◌, ◌%◌, String, ◌≡◌, Bool, true, false, ◌&&◌, ◌||◌, not, Option, none, some,
  List, [], ◌∷◌, ltb, leb, ◌==◌, if◌then◌else◌, length, take, drop, keep,
}
use bigrag.Base.Text.{is_empty, rstrip}
use bigrag.Base.Json.{Value, text, object, Fields, end, field, lookup}
use bigrag.Base.Result.{Result, ok, err, ◌>>=◌, ◌>>◌, raise_if}

-- An instant in microseconds, and whether the `datetime` has a time zone.
pub record DateTime : Type 0 where
  pub instant : ℕ
  pub aware : Bool

-- A `UUID` is its number.
abbrev pub Key : Type 0
Key = DateTime × ℕ

pub data CursorFault : Type 0 where
  validation_error : String → CursorFault
  http_exception : ℕ → CursorFault
  index_error : CursorFault
  database_error : CursorFault

pub data Direction : Type 0 where
  asc desc : Direction

-- base64, orjson, and the texts of a `datetime` and of a `UUID`; none is an exception. `encodes` tells
-- whether the database's driver can send a cursor's position, which it fails to where a `datetime`
-- leaves the years 1 to 9999 in UTC.
pub record Codec : Type 0 where
  pub b64encode : List ℕ → String
  pub b64decode : String → Option (List ℕ)
  pub dumps : Value → List ℕ
  pub loads : List ℕ → Option Value
  pub isoformat : DateTime → String
  pub fromisoformat : String → Option DateTime
  pub uuid_text : ℕ → String
  pub uuid_of : String → Option ℕ
  pub encodes : DateTime × ℕ → Bool

-- `c * n`
unfoldable pub repeat : ℕ → Char → String
repeat zero c = ""
repeat (suc n) c = String.◌∷◌ c (repeat n c)

-- `len(s)`
unfoldable pub text_length : String → ℕ
text_length String.[] = 0
text_length (String.◌∷◌ c s) = suc (text_length s)

-- `-n % 4`
unfoldable pub pad_count : ℕ → ℕ
pad_count n = (4 - n % 4) % 4

unfoldable pub payload : String → String → Fields
payload created_at id = field "created_at" (text created_at) (field "id" (text id) end)

abbrev malformed {ℓ} : {A : Type ℓ} → Result CursorFault A
malformed = err (validation_error "cursor is malformed")

abbrev pub or_malformed {ℓ} : {A : Type ℓ} → Option A → Result CursorFault A
or_malformed none = malformed
or_malformed (some a) = ok a

unfoldable pub fields_of : Value → Result CursorFault Fields
fields_of (object d) = ok d
fields_of _ = malformed

unfoldable pub text_of : Option Value → Result CursorFault String
text_of (some (text s)) = ok s
text_of _ = malformed

module _ (codec : Codec) where
  unfoldable pub encode_cursor : DateTime → ℕ → String
  unfolding payload
  encode_cursor created_at id = rstrip b'=' (
      codec.b64encode
        (codec.dumps (object (payload (codec.isoformat created_at) (codec.uuid_text id)))))

  unfoldable pub decode_payload : Fields → Result CursorFault Key
  unfolding text_of
  decode_payload d = do
    created_at_raw ← text_of (lookup "created_at" d)
    id_raw ← text_of (lookup "id" d)
    created_at ← or_malformed (codec.fromisoformat created_at_raw)
    raise_if (not created_at.aware) (validation_error "cursor is malformed")
    id ← or_malformed (codec.uuid_of id_raw)
    ok (created_at, id)

  unfoldable pub decode_cursor : String → Result CursorFault Key
  unfolding repeat text_length pad_count fields_of decode_payload
  decode_cursor token = do
    raise_if (is_empty token) (validation_error "cursor is empty")
    let padding = repeat (pad_count (text_length token)) "="
    raw ← or_malformed (codec.b64decode (text_append token padding))
    value ← or_malformed (codec.loads raw)
    d ← fields_of value
    decode_payload d

  abbrev as_400 {ℓ} : {A : Type ℓ} → Result CursorFault A → Result CursorFault (Option A)
  as_400 (ok a) = ok (some a)
  as_400 (err (validation_error m)) = err (http_exception 400)
  as_400 (err x) = err x

  unfoldable pub decode_cursor_or_400 : Option String → Result CursorFault (Option Key)
  decode_cursor_or_400 none = ok none
  decode_cursor_or_400 (some cursor) =
      if is_empty cursor then ok none else as_400 (decode_cursor cursor)

-- The condition that `apply_cursor` adds: the row `a` comes behind the row `c`.
unfoldable pub is_behind : Direction → Key → Key → Bool
is_behind desc c a = ltb a.0.instant c.0.instant || ((a.0.instant == c.0.instant) && ltb a.1 c.1)
is_behind asc c a = ltb c.0.instant a.0.instant || ((a.0.instant == c.0.instant) && ltb c.1 a.1)

module _ {ℓ} {Row : Type ℓ} (key : Row → Key) where
  -- What a statement selects from the rows in its order.
  unfoldable pub apply_cursor : Direction → Option Key → List Row → List Row
  unfolding is_behind
  apply_cursor direction none rows = rows
  apply_cursor direction (some c) rows = keep (λ r. is_behind direction c (key r)) rows

  -- `page[-1]`
  unfoldable pub last : List Row → Result CursorFault Row
  last [] = err index_error
  last (r ∷ []) = ok r
  last (r ∷ s ∷ rows) = last (s ∷ rows)

  unfoldable pub build_response_cursor :
      Codec → List Row → ℕ → Result CursorFault (List Row × Option String)
  unfolding encode_cursor last
  build_response_cursor codec rows limit = if leb (length rows) limit then ok (rows, none) else do
    let page = take limit rows
    r ← last page
    ok (page, some (encode_cursor codec (key r).0 (key r).1))

  pub record Page : Type ℓ where
    pub rows : List Row
    pub next_cursor : Option String
    pub total : Option ℕ

  -- The offset counts only without a cursor.
  unfoldable pub fetched : Direction → Option Key → ℕ → ℕ → List Row → List Row
  unfolding apply_cursor
  fetched direction (some c) limit offset table =
      take (limit + 1) (apply_cursor direction (some c) table)
  fetched direction none limit offset table = take (limit + 1) (drop offset table)

  abbrev pub counted : Option (Option ℕ) → Option ℕ
  counted none = none
  counted (some none) = some 0
  counted (some (some n)) = some n

  abbrev pub encodable : Codec → Option Key → Bool
  encodable codec none = true
  encodable codec (some c) = codec.encodes c

  -- `table` holds the rows of the statement in its order, `count` what the other statement answers.
  unfoldable pub paginate :
      Codec
      → Direction
      → List Row
      → Option String
      → ℕ
      → ℕ
      → Option (Option ℕ)
      → Result CursorFault Page
  unfolding decode_cursor_or_400 fetched build_response_cursor
  paginate codec direction table cursor limit offset count = do
    position ← decode_cursor_or_400 codec cursor
    raise_if (not (encodable codec position)) database_error
    answer ← build_response_cursor codec (fetched direction position limit offset table) limit
    ok record { rows = answer.0; next_cursor = answer.1; total = counted count }
