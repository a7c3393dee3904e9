-- ===== src/Pagination/Answers.antt =====
-- What a request for a page gets: a page, status 400, or the exception of the driver.
use bigrag.Base.{
  ℕ, zero, suc, ◌≤◌, ◌<◌, String, ◌≡◌, ◌⊎◌, inl, inr, refl, Bool, true, false, not, Option, none,
  some, List, [], ◌∷◌, leb, leb→le, length, take, length-take-le, Bool-cases, arith,
}
use bigrag.Base.Text.{is_empty}
use bigrag.Base.Json.{
  Value, null, boolean, natural, negative, float, text, array, object, Fields, lookup,
}
use bigrag.Base.Result.{Result, ok, err, ◌>>=◌, raise_if}
use bigrag.Pagination.{
  Key, Codec, CursorFault, validation_error, http_exception, index_error, database_error, Direction,
  Page, fields_of, text_of, or_malformed, decode_payload, decode_cursor, decode_cursor_or_400, last,
  build_response_cursor, encodable, fetched, paginate, as_400, counted, encode_cursor,
}

-- The only exception is a `ValidationError`.
abbrev Validates {ℓ} : {A : Type ℓ} → Result CursorFault A → Type 0
Validates (ok a) = Unit
Validates (err (validation_error m)) = Unit
Validates (err (http_exception n)) = ⊥
Validates (err index_error) = ⊥
Validates (err database_error) = ⊥

Validates->>= {ℓ κ} :
    {A : Type ℓ} {B : Type κ} (first : Result CursorFault A) (rest : A → Result CursorFault B)
    → Validates first
    → ((a : A) → Validates (rest a))
    → Validates (first >>= rest)
Validates->>= (ok a) rest h g = g a
Validates->>= (err (validation_error m)) rest h g = tt
Validates->>= (err (http_exception n)) rest h g = absurd h
Validates->>= (err index_error) rest h g = absurd h
Validates->>= (err database_error) rest h g = absurd h

Validates-or_malformed {ℓ} : {A : Type ℓ} (o : Option A) → Validates (or_malformed o)
Validates-or_malformed none = tt
Validates-or_malformed (some a) = tt

Validates-raise_if : (b : Bool) (m : String) → Validates (raise_if b (validation_error m))
Validates-raise_if true m = tt
Validates-raise_if false m = tt

Validates-fields_of : (v : Value) → Validates (fields_of v)
unfolding fields_of
Validates-fields_of null = tt
Validates-fields_of (boolean b) = tt
Validates-fields_of (natural n) = tt
Validates-fields_of (negative n) = tt
Validates-fields_of (float b) = tt
Validates-fields_of (text s) = tt
Validates-fields_of (array xs) = tt
Validates-fields_of (object d) = tt

Validates-text_of : (v : Option Value) → Validates (text_of v)
unfolding text_of
Validates-text_of none = tt
Validates-text_of (some null) = tt
Validates-text_of (some (boolean b)) = tt
Validates-text_of (some (natural n)) = tt
Validates-text_of (some (negative n)) = tt
Validates-text_of (some (float b)) = tt
Validates-text_of (some (text s)) = tt
Validates-text_of (some (array xs)) = tt
Validates-text_of (some (object d)) = tt

module _ (codec : Codec) where
  Validates-decode_payload : (d : Fields) → Validates (decode_payload codec d)
  unfolding decode_payload
  Validates-decode_payload d = Validates->>= _ _ (Validates-text_of (lookup "created_at" d)) λ s.
      Validates->>= _ _ (Validates-text_of (lookup "id" d)) λ i.
        Validates->>= _ _ (Validates-or_malformed (codec.fromisoformat s)) λ t.
          Validates->>= _ _ (Validates-raise_if (not t.aware) _)
            λ u. Validates->>= _ _ (Validates-or_malformed (codec.uuid_of i)) λ n. tt

  Validates-decode_cursor : (token : String) → Validates (decode_cursor codec token)
  unfolding decode_cursor
  Validates-decode_cursor token = Validates->>= _ _ (Validates-raise_if (is_empty token) _) λ u.
      Validates->>= _ _ (Validates-or_malformed _) λ raw.
        Validates->>= _ _ (Validates-or_malformed (codec.loads raw))
          λ v. Validates->>= _ _ (Validates-fields_of v) (Validates-decode_payload)

  as_400-cases {ℓ} :
      {A : Type ℓ} (r : Result CursorFault A)
      → Validates r
      → ((a : A) × (as_400 codec r ≡ ok (some a))) ⊎ (as_400 codec r ≡ err (http_exception 400))
  as_400-cases (ok a) h = inl (a, refl)
  as_400-cases (err (validation_error m)) h = inr refl
  as_400-cases (err (http_exception n)) h = absurd h
  as_400-cases (err index_error) h = absurd h
  as_400-cases (err database_error) h = absurd h

  decode-cases :
      (cursor : Option String)
      → ((p : Option Key) × (decode_cursor_or_400 codec cursor ≡ ok p))
        ⊎ (decode_cursor_or_400 codec cursor ≡ err (http_exception 400))
  unfolding decode_cursor_or_400
  decode-cases none = inl (none, refl)
  decode-cases (some cursor) = elim (Bool-cases (is_empty cursor)) [
    | inl y ↦ inl (none, rw y refl)
    | inr n ↦ elim (as_400-cases (decode_cursor codec cursor) (Validates-decode_cursor cursor)) [
      | inl (a, e) ↦ inl (some a, rw (n, e) refl)
      | inr e ↦ inr (rw (n, e) refl)
    ]
  ]

module _ {ℓ} {Row : Type ℓ} (key : Row → Key) where
  last-some : (r : Row) (rows : List Row) → (a : Row) × (last key (r ∷ rows) ≡ ok a)
  unfolding last
  last-some r [] = (r, refl)
  last-some r (s ∷ rows) = last-some s rows

  last-take :
      (k : ℕ) (rows : List Row)
      → suc k < length rows
      → (a : Row) × (last key (take (suc k) rows) ≡ ok a)
  last-take k [] h = absurd (omega (arith, h))
  last-take k (r ∷ rows) h = last-some r (take k rows)

  build-within :
      (codec : Codec) (rows : List Row) (limit : ℕ)
      → 0 < limit
      → (page : List Row) × (next : Option String) × (build_response_cursor key codec rows limit
          ≡ ok (page, next))
        × (length page ≤ limit)
  unfolding build_response_cursor
  build-within codec rows zero h = absurd (omega (arith, h))
  build-within codec rows (suc k) h = elim (Bool-cases (leb (length rows) (suc k))) [
    | inl y ↦ (rows, none, rw y refl, leb→le _ _ y)
    | inr n ↦
        let (a, e) = last-take k rows (ground (arith, n)) in
        (
          take (suc k) rows,
          some (encode_cursor codec (key a).0 (key a).1),
          rw (n, e) refl,
          length-take-le (suc k) rows,
        )
  ]

  -- The driver cannot send the position that the cursor holds.
  abbrev pub IsUnsendable : Codec → Option String → Type 0
  IsUnsendable codec cursor =
      (c : Key) × (decode_cursor_or_400 codec cursor ≡ ok (some c)) × (codec.encodes c ≡ false)

  unsendable :
      (codec : Codec) (cursor : Option String) (p : Option Key)
      → decode_cursor_or_400 codec cursor ≡ ok p
      → encodable key codec p ≡ false
      → IsUnsendable codec cursor
  unsendable codec cursor none e h = cc
  unsendable codec cursor (some c) e h = (c, e, h)

  -- Where the database runs each statement that its driver can send: with a limit above 0, paginate
  -- answers with a page of no more rows than the limit or with an HTTPException of status 400,
  -- whatever the cursor's text is; but for a cursor whose position the database's driver cannot send,
  -- the driver's exception leaves it.
  pub paginate-answers :
      (codec : Codec) (d : Direction) (table : List Row) (cursor : Option String) (limit offset : ℕ)
      (count : Option (Option ℕ))
      → 0 < limit
      → ((page : Page key) × (paginate key codec d table cursor limit offset count ≡ ok page)
          × (length page.rows ≤ limit))
        ⊎ (paginate key codec d table cursor limit offset count ≡ err (http_exception 400))
        ⊎ ((paginate key codec d table cursor limit offset count ≡ err database_error)
            × IsUnsendable codec cursor)
  unfolding paginate
  paginate-answers codec d table cursor limit offset count h = elim (decode-cases codec cursor) [
    | inr e ↦ inr (inl (rw e refl))
    | inl (p, e) ↦ elim (Bool-cases (encodable key codec p)) [
      | inr n ↦ inr (inr (rw (e, n) refl, unsendable codec cursor p e n))
      | inl y ↦
          let (page, next, b, short) =
            build-within codec (fetched key d p limit offset table) limit h in
          inl (
            record { rows = page; next_cursor = next; total = counted key count },
            rw (e, y, b) refl,
            short,
          )
    ]
  ]
