-- ===== src/Pagination/Scenarios.antt =====
-- Runs of the pagination, with small codes in place of base64, orjson and the texts of datetimes.
use Prim.Native.Char.{Char, code}
use Prim.Native.String.{◌++◌ as text_append}
use Prim.Native.String.append
use bigrag.Base.{
  ℕ, zero, suc, ◌+◌, ◌*◌, ◌/◌, ◌%◌, ◌<◌, String, ◌≡◌, refl, inl, inr, ap, ◌∙◌, Bool, length, ◌≤◌,
  ◌⊎◌, true, false, Option, none, some, List, [], ◌∷◌, ◌==◌, if◌then◌else◌, arith,
}
use bigrag.Base.Text.{is_empty, has_char}
use bigrag.Base.Result.{ok, err}
use bigrag.Base.Json.{Value, text, object, end, field}
use bigrag.Pagination.{
  Key, DateTime, Codec, desc, http_exception, database_error, Page, encode_cursor, decode_cursor,
  paginate, repeat, text_length, pad_count, payload,
}
use bigrag.Pagination.Roundtrip.{Padded, IsFaithful, decode_cursor-encode_cursor}
use bigrag.Pagination.Walk.{follow, follow_table}
use bigrag.Pagination.Answers.{IsUnsendable, paginate-answers}

-- A byte is so many `a` and one `b`.
abbrev unary : ℕ → String → String
unary zero s = String.◌∷◌ "b" s
unary (suc n) s = String.◌∷◌ "a" (unary n s)

abbrev digits_of : List ℕ → String
digits_of [] = ""
digits_of (n ∷ raw) = unary n (digits_of raw)

unfoldable read_unary : ℕ → String → List ℕ
read_unary n String.[] = []
read_unary n (String.◌∷◌ c s) =
    let more = read_unary (suc n) s in
    let next = n ∷ read_unary 0 s in
    if code c == b'a' then more else (if code c == b'b' then next else [])

unfoldable small_encode : List ℕ → String
small_encode raw =
    text_append (digits_of raw) (repeat (pad_count (text_length (digits_of raw))) "=")

unfoldable small_dumps : Value → List ℕ
small_dumps (object (field i (text s) (field j (text t) end))) = text_length s ∷ text_length t ∷ []
small_dumps _ = []

unfoldable small_loads : List ℕ → Option Value
small_loads (m ∷ n ∷ []) = some (object (payload (repeat m "a") (repeat n "a")))
small_loads _ = none

unfoldable small_isoformat : DateTime → String
small_isoformat t = repeat (2 * t.instant + (if t.aware then 0 else 1)) "a"

unfoldable small_fromisoformat : String → Option DateTime
small_fromisoformat s =
    some record { instant = text_length s / 2; aware = (text_length s % 2) == 0 }

abbrev small : Codec
small = record {
  b64encode = small_encode;
  b64decode = λ s. some (read_unary 0 s);
  dumps = small_dumps;
  loads = small_loads;
  isoformat = small_isoformat;
  fromisoformat = small_fromisoformat;
  uuid_text = λ n. repeat n "a";
  uuid_of = λ s. some (text_length s);
  encodes = λ c. true;
}

has_char-unary : (n : ℕ) (s : String) → has_char b'=' s ≡ false → has_char b'=' (unary n s) ≡ false
unfolding has_char
has_char-unary zero s h = h
has_char-unary (suc n) s h = has_char-unary n s h

has_char-digits : (raw : List ℕ) → has_char b'=' (digits_of raw) ≡ false
unfolding has_char
has_char-digits [] = refl
has_char-digits (n ∷ raw) = has_char-unary n _ (has_char-digits raw)

is_empty-unary : (n : ℕ) (s : String) → is_empty (unary n s) ≡ false
is_empty-unary zero s = refl
is_empty-unary (suc n) s = refl

read_unary-pads : (m n : ℕ) → read_unary m (repeat n "=") ≡ []
unfolding read_unary repeat
read_unary-pads m zero = refl
read_unary-pads m (suc n) = refl

read_unary-unary :
    (m n : ℕ) (s t : String)
    → read_unary m (text_append (unary n s) t) ≡ (m + n) ∷ read_unary 0 (text_append s t)
unfolding read_unary
read_unary-unary m zero s t =
    let e : m ≡ m + 0 = omega arith in
    rw append.cons (ap (λ i. i ∷ read_unary 0 (text_append s t)) e)
read_unary-unary m (suc n) s t =
    let e : suc m + n ≡ m + suc n = omega arith in
    rw append.cons (read_unary-unary (suc m) n s t ∙ ap (λ i. i ∷ read_unary 0 (text_append s t)) e)

read_unary-digits :
    (raw : List ℕ) (n : ℕ) → read_unary 0 (text_append (digits_of raw) (repeat n "=")) ≡ raw
read_unary-digits [] n = rw append.nil (read_unary-pads 0 n)
read_unary-digits (x ∷ raw) n =
    let e : 0 + x ≡ x = omega arith in
    read_unary-unary 0 x (digits_of raw) (repeat n "=")
    ∙ rw e (ap (λ r. x ∷ r) (read_unary-digits raw n))

text_length-repeat : (n : ℕ) (c : Char) → text_length (repeat n c) ≡ n
unfolding text_length repeat
text_length-repeat zero c = refl
text_length-repeat (suc n) c = ap suc (text_length-repeat n c)

pad_count-few : (n : ℕ) → pad_count n < 4
unfolding pad_count
pad_count-few n = omega arith

pad_count-fit : (n : ℕ) → (n + pad_count n) % 4 ≡ 0
unfolding pad_count
pad_count-fit n = omega arith

small-Padded : (x : ℕ) (raw : List ℕ) → Padded (small_encode (x ∷ raw))
unfolding small_encode
small-Padded x raw = record {
  digits = digits_of (x ∷ raw);
  pads = pad_count (text_length (digits_of (x ∷ raw)));
  whole = refl;
  digits_plain = has_char-digits (x ∷ raw);
  digits_some = is_empty-unary x _;
  pads_few = pad_count-few _;
  pads_fit = pad_count-fit _;
}

instant_parts :
    (i : ℕ) (b : Bool)
    → ((2 * i + (if b then 0 else 1)) / 2 ≡ i) × (((2 * i + (if b then 0 else 1)) % 2 == 0) ≡ b)
instant_parts i true = (omega arith, let e : (2 * i + 0) % 2 ≡ 0 = omega arith in rw e refl)
instant_parts i false = (omega arith, let e : (2 * i + 1) % 2 ≡ 1 = omega arith in rw e refl)

small_instant : (t : DateTime) → small_fromisoformat (small_isoformat t) ≡ some t
unfolding small_fromisoformat small_isoformat
small_instant t =
    let (same, zone) = instant_parts t.instant t.aware in
    rw text_length-repeat (rw (same, zone) refl)

small-IsFaithful : IsFaithful small
unfolding small_encode small_dumps small_loads small_isoformat payload
small-IsFaithful = record {
  padded = small-Padded;
  decoded = λ raw. ap some (read_unary-digits raw _);
  dumped = λ t n. (_, _, refl);
  loaded = λ t n. rw (text_length-repeat _ _) (rw (text_length-repeat n "a") refl);
  instant_read = small_instant;
  uuid_read = λ n. ap some (text_length-repeat n _);
}

abbrev noon : DateTime
noon = record { instant = 12; aware = true }

decode_cursor-encode_cursor_example :
    decode_cursor small (encode_cursor small noon 7) ≡ ok (noon, 7)
decode_cursor-encode_cursor_example = decode_cursor-encode_cursor small small-IsFaithful noon 7 refl

-- Three rows, two of one instant.
abbrev three : List Key
three = (noon, 7) ∷ (noon, 3) ∷ (record { instant = 5; aware = true }, 9) ∷ []

abbrev row_key : Key → Key
row_key r = r

follow_table_example : follow row_key small desc three 2 4 none ≡ ok (three, none)
follow_table_example =
    follow_table row_key small desc three 2 3 small-IsFaithful
      ((inr (refl, omega arith), (inl (omega arith), tt)), ((inl (omega arith), tt), (tt, tt)))
      ((refl, refl), ((refl, refl), ((refl, refl), tt))) (omega arith) (omega arith)

paginate-answers_example :
    ((page : Page row_key) × (paginate row_key small desc three (some "x") 2 0 none ≡ ok page)
      × (length page.rows ≤ 2))
    ⊎ (paginate row_key small desc three (some "x") 2 0 none ≡ err (http_exception 400))
    ⊎ ((paginate row_key small desc three (some "x") 2 0 none ≡ err database_error)
        × IsUnsendable row_key small (some "x"))
paginate-answers_example =
    paginate-answers row_key small desc three (some "x") 2 0 none (omega arith)
