-- ===== src/Pagination/Walk.antt =====
-- A client that follows the cursors of paginate from page to page.
use mathlib.Core.List.{append_assoc}
use bigrag.Base.{
  ℕ, zero, suc, ◌+◌, ◌≤◌, ◌<◌, String, ◌≡◌, refl, sym, ap, subst, ◌∙◌, true, false, Option, none,
  some, List, [], ◌∷◌, ◌++◌, leb, leb→le, length, take, All, Bool-cases, inl, inr, arith,
}
use bigrag.Base.Result.{Result, ok, ◌>>=◌}
use bigrag.Pagination.{
  Key, Codec, CursorFault, Direction, encode_cursor, decode_cursor_or_400, last,
  build_response_cursor, encodable, fetched, paginate,
}
use bigrag.Pagination.Cuts.{Place, cut_at, take-all, take-take, length-take-long, All-at}
use bigrag.Pagination.Roundtrip.{IsFaithful, decode_cursor-encode_cursor, encode_cursor-some}
use bigrag.Pagination.Filtered.{IsOrdered, apply_cursor-cut}

module _ {ℓ} {Row : Type ℓ} (key : Row → Key) where
  -- The row's datetime is aware, and the driver can send the position of its cursor.
  abbrev pub IsStored : Codec → Row → Type 0
  IsStored codec r = ((key r).0.aware ≡ true) × (codec.encodes (key r) ≡ true)

  last-append : (front : List Row) (a : Row) → last key (front ++ (a ∷ [])) ≡ ok a
  unfolding last
  last-append [] a = refl
  last-append (x ∷ []) a = refl
  last-append (x ∷ y ∷ front) a = last-append (y ∷ front) a

  module _ (codec : Codec) (d : Direction) (table : List Row) (limit : ℕ) where
    -- Reads at most `n` pages from a cursor on: the rows, and the cursor that is left.
    unfoldable pub follow : ℕ → Option String → Result CursorFault (List Row × Option String)
    follow zero cursor = ok ([], cursor)
    follow (suc n) cursor = do
      page ← paginate key codec d table cursor limit 0 none
      elim page.next_cursor [
        | none ↦ ok (page.rows, none)
        | some token ↦ do rest ← follow n (some token); ok (page.rows ++ rest.0, rest.1)
      ]

    follow-last :
        (n : ℕ) (cursor : Option String) {rows : List Row} {total : Option ℕ}
        → paginate key codec d table cursor limit 0 none
          ≡ ok record { rows = rows; next_cursor = none; total = total }
        → follow (suc n) cursor ≡ ok (rows, none)
    unfolding follow
    follow-last n cursor h = rw h refl

    follow-more :
        (n : ℕ) (cursor : Option String) {rows rest : List Row} {token : String} {total : Option ℕ}
        → paginate key codec d table cursor limit 0 none
          ≡ ok record { rows = rows; next_cursor = some token; total = total }
        → follow n (some token) ≡ ok (rest, none)
        → follow (suc n) cursor ≡ ok (rows ++ rest, none)
    unfolding follow
    follow-more n cursor h g = rw h (rw g refl)

    paginate-page :
        (cursor : Option String) (position : Option Key) (rest : List Row) {rows : List Row}
        {next : Option String}
        → decode_cursor_or_400 codec cursor ≡ ok position
        → encodable key codec position ≡ true
        → fetched key d position limit 0 table ≡ take (suc limit) rest
        → build_response_cursor key codec (take (suc limit) rest) limit ≡ ok (rows, next)
        → paginate key codec d table cursor limit 0 none
          ≡ ok record { rows = rows; next_cursor = next; total = none }
    unfolding paginate
    paginate-page cursor position rest h sent g e = rw h (rw sent (rw g (rw e refl)))

  module _ (codec : Codec) where
    build-last :
        (limit : ℕ) (rows : List Row)
        → length rows ≤ limit
        → build_response_cursor key codec (take (suc limit) rows) limit ≡ ok (rows, none)
    unfolding build_response_cursor
    build-last limit rows h = rw (take-all (suc limit) rows (omega (arith, h))) (ground (arith, h))

    build-more :
        (k : ℕ) (rows : List Row) (c : Place k rows)
        → suc k < length rows
        → build_response_cursor key codec (take (suc (suc k)) rows) (suc k)
          ≡ ok (c.front ++ (c.row ∷ []), some (encode_cursor codec (key c.row).0 (key c.row).1))
    unfolding build_response_cursor
    build-more k rows c h =
        let e : leb (suc (suc k)) (suc k) ≡ false = ground arith in
        rw (length-take-long (suc (suc k)) rows (omega (arith, h)))
          (rw (e, take-take (suc k) rows, c.is_page, last-append c.front c.row) refl)

    decode-token :
        (f : IsFaithful codec) (c : Key)
        → c.0.aware ≡ true
        → decode_cursor_or_400 codec (some (encode_cursor codec c.0 c.1)) ≡ ok (some c)
    unfolding decode_cursor_or_400
    decode-token f c h =
        rw (encode_cursor-some codec f c.0 c.1, decode_cursor-encode_cursor codec f c.0 c.1 h) refl

  fetched-cut :
      (d : Direction) (k : ℕ) (front : List Row) (a : Row) (rest : List Row)
      → IsOrdered key d (front ++ (a ∷ rest))
      → fetched key d (some (key a)) k 0 (front ++ (a ∷ rest)) ≡ take (suc k) rest
  unfolding fetched
  fetched-cut d k front a rest o =
      let e : k + 1 ≡ suc k = omega arith in rw (e, apply_cursor-cut key d front a rest o) refl

  module _ (codec : Codec) (f : IsFaithful codec) (d : Direction) (table : List Row) (k : ℕ)
      (ordered : IsOrdered key d table) (stored : All (IsStored codec) table) where
    next_front :
        (front rest : List Row) (c : Place k rest)
        → table ≡ front ++ rest
        → table ≡ (front ++ c.front) ++ (c.row ∷ c.tail)
    next_front front rest c whole =
        whole ∙ ap (λ r. front ++ r) c.is_whole ∙ sym (append_assoc front c.front (c.row ∷ c.tail))

    page_rest : (rest : List Row) (c : Place k rest) → rest ≡ (c.front ++ (c.row ∷ [])) ++ c.tail
    page_rest rest c = c.is_whole ∙ sym (append_assoc c.front (c.row ∷ []) c.tail)

    follow-end :
        (n : ℕ) (cursor : Option String) (position : Option Key) (rest : List Row)
        → decode_cursor_or_400 codec cursor ≡ ok position
        → encodable key codec position ≡ true
        → fetched key d position (suc k) 0 table ≡ take (suc (suc k)) rest
        → length rest ≤ suc k
        → follow codec d table (suc k) (suc n) cursor ≡ ok (rest, none)
    follow-end n cursor position rest decoded sent page short =
        follow-last codec d table (suc k) n cursor (
          paginate-page codec d table (suc k) cursor position rest decoded sent page
            (build-last codec (suc k) rest short))

    follow_middle :
        (n : ℕ) (cursor : Option String) (position : Option Key) (rest : List Row)
        (c : Place k rest)
        → decode_cursor_or_400 codec cursor ≡ ok position
        → encodable key codec position ≡ true
        → fetched key d position (suc k) 0 table ≡ take (suc (suc k)) rest
        → suc k < length rest
        → follow codec d table (suc k) n (some (encode_cursor codec (key c.row).0 (key c.row).1))
          ≡ ok (c.tail, none)
        → follow codec d table (suc k) (suc n) cursor ≡ ok (rest, none)
    follow_middle n cursor position rest c decoded sent page long after =
        subst (λ r. follow codec d table (suc k) (suc n) cursor ≡ ok (r, none))
          (sym (page_rest rest c))
          (follow-more codec d table (suc k) n cursor
            (paginate-page codec d table (suc k) cursor position rest decoded sent page
              (build-more codec k rest c long))
            after)

    fetched-next :
        (front rest : List Row) (c : Place k rest)
        → table ≡ (front ++ c.front) ++ (c.row ∷ c.tail)
        → fetched key d (some (key c.row)) (suc k) 0 table ≡ take (suc (suc k)) c.tail
    fetched-next front rest c whole =
        subst (λ t. fetched key d (some (key c.row)) (suc k) 0 t ≡ take (suc (suc k)) c.tail)
          (sym whole)
          (fetched-cut d (suc k) (front ++ c.front) c.row c.tail
            (subst (IsOrdered key d) whole ordered))

    IsStored-next :
        (front rest : List Row) (c : Place k rest)
        → table ≡ (front ++ c.front) ++ (c.row ∷ c.tail)
        → IsStored codec c.row
    IsStored-next front rest c whole =
        All-at (IsStored codec) (front ++ c.front) c.row c.tail
          (subst (All (IsStored codec)) whole stored)

    follow-rest :
        (n : ℕ) (cursor : Option String) (position : Option Key) (front rest : List Row)
        → table ≡ front ++ rest
        → decode_cursor_or_400 codec cursor ≡ ok position
        → encodable key codec position ≡ true
        → fetched key d position (suc k) 0 table ≡ take (suc (suc k)) rest
        → length rest ≤ n
        → follow codec d table (suc k) (suc n) cursor ≡ ok (rest, none)
    follow-rest zero cursor position front rest whole decoded sent page enough =
        follow-end zero cursor position rest decoded sent page (omega (arith, enough))
    follow-rest (suc n) cursor position front rest whole decoded sent page enough =
        elim (Bool-cases (leb (length rest) (suc k))) [
          | inl y ↦ follow-end (suc n) cursor position rest decoded sent page (leb→le _ _ y)
          | inr m ↦
              let long : suc k < length rest = ground (arith, m) in
              let c = cut_at k rest (omega (arith, long)) in
              let here = next_front front rest c whole in
              follow_middle (suc n) cursor position rest c decoded sent page long (
                follow-rest n _ (some (key c.row)) ((front ++ c.front) ++ (c.row ∷ [])) c.tail
                  (here ∙ sym (append_assoc (front ++ c.front) (c.row ∷ []) c.tail))
                  (decode-token codec f (key c.row) (IsStored-next front rest c here).0)
                  (IsStored-next front rest c here).1 (fetched-next front rest c here)
                  (omega (arith, c.is_shorter, enough)))
        ]

  -- Let base64, orjson, datetimes and UUIDs read back what they wrote, and the base64 of a non-empty
  -- payload be digits and at most three =. If the rows of a statement have aware datetimes that the
  -- database's driver can send, and stand
  -- strictly in the order of its direction, then a client that starts without a cursor and follows
  -- the cursors of its pages gets every row once and in order, and no cursor is left, after at most
  -- one page more than there are rows, for every limit but 0.
  pub follow_table :
      (codec : Codec) (d : Direction) (table : List Row) (limit n : ℕ)
      → IsFaithful codec
      → IsOrdered key d table
      → All (IsStored codec) table
      → 0 < limit
      → length table ≤ n
      → follow codec d table limit (suc n) none ≡ ok (table, none)
  unfolding fetched decode_cursor_or_400
  follow_table codec d table zero n f o a h e = absurd (omega (arith, h))
  follow_table codec d table (suc k) n f o a h e =
      follow-rest codec f d table k o a n none none [] table refl refl refl
        (let same : suc k + 1 ≡ suc (suc k) = omega arith in ap (λ i. take i table) same) e
