-- ===== src/Pagination/Roundtrip.antt =====
-- A cursor that was encoded is decoded again: encode_cursor and decode_cursor.
use Prim.Native.Char.{Char, code}
use Prim.Native.String.{◌++◌ as text_append}
use Prim.Native.String.append
use bigrag.Base.{
  ℕ, zero, suc, ◌+◌, ◌%◌, ◌<◌, String, ◌≡◌, refl, sym, true, false, some, List, ◌∷◌, ◌==◌, arith,
}
use bigrag.Base.Text.{is_empty, has_char, rstrip, rstrip_step}
use bigrag.Base.Json.{object, lookup}
use bigrag.Base.Result.{ok}
use bigrag.Pagination.{
  DateTime, Codec, repeat, text_length, pad_count, payload, fields_of, text_of, encode_cursor,
  decode_payload, decode_cursor,
}

-- base64 without padding, as its digits and the count of the `=` behind them
pub record Padded (encoded : String) : Type 0 where
  pub digits : String
  pub pads : ℕ
  pub whole : encoded ≡ text_append digits (repeat pads "=")
  pub digits_plain : has_char b'=' digits ≡ false
  pub digits_some : is_empty digits ≡ false
  pub pads_few : pads < 4
  pub pads_fit : (text_length digits + pads) % 4 ≡ 0

-- What the cursors rely on of base64, orjson, `datetime` and `UUID`.
pub record IsFaithful (codec : Codec) : Type 0 where
  pub padded : (x : ℕ) (raw : List ℕ) → Padded (codec.b64encode (x ∷ raw))
  pub decoded : (raw : List ℕ) → codec.b64decode (codec.b64encode raw) ≡ some raw
  pub dumped :
      (t : DateTime) (n : ℕ)
      → (x : ℕ) × (raw : List ℕ) × (codec.dumps
            (object (payload (codec.isoformat t) (codec.uuid_text n)))
          ≡ x ∷ raw)
  pub loaded :
      (t : DateTime) (n : ℕ)
      → codec.loads (codec.dumps (object (payload (codec.isoformat t) (codec.uuid_text n))))
        ≡ some (object (payload (codec.isoformat t) (codec.uuid_text n)))
  pub instant_read : (t : DateTime) → codec.fromisoformat (codec.isoformat t) ≡ some t
  pub uuid_read : (n : ℕ) → codec.uuid_of (codec.uuid_text n) ≡ some n

rstrip-repeat : (n : ℕ) → rstrip b'=' (repeat n "=") ≡ ""
unfolding rstrip repeat
rstrip-repeat zero = refl
rstrip-repeat (suc n) = rw (rstrip-repeat n) refl

rstrip_step-other :
    (c : Char) (s : String) → (code c == b'=') ≡ false → rstrip_step b'=' c s ≡ String.◌∷◌ c s
rstrip_step-other c String.[] h = rw h refl
rstrip_step-other c (String.◌∷◌ d s) h = refl

rstrip-append :
    (s : String) (n : ℕ) → has_char b'=' s ≡ false → rstrip b'=' (text_append s (repeat n "=")) ≡ s
unfolding rstrip has_char
rstrip-append String.[] n h = rw append.nil (rstrip-repeat n)
rstrip-append (String.◌∷◌ c s) n h =
    rw append.cons (rw (rstrip-append s n (ground arith)) (rstrip_step-other c s (ground arith)))

pad_count-fits : (m n : ℕ) → n < 4 → (m + n) % 4 ≡ 0 → pad_count m ≡ n
unfolding pad_count
pad_count-fits m n few fit = omega arith

module _ (codec : Codec) (f : IsFaithful codec) where
  decode_payload-payload :
      (t : DateTime) (n : ℕ)
      → t.aware ≡ true
      → decode_payload codec (payload (codec.isoformat t) (codec.uuid_text n)) ≡ ok (t, n)
  unfolding decode_payload payload text_of lookup
  decode_payload-payload t n h = rw (f.instant_read t, h, f.uuid_read n) refl

  decode_cursor-raw :
      (t : DateTime) (n x : ℕ) (raw : List ℕ)
      → codec.dumps (object (payload (codec.isoformat t) (codec.uuid_text n))) ≡ x ∷ raw
      → t.aware ≡ true
      → Padded (codec.b64encode (x ∷ raw))
      → decode_cursor codec (encode_cursor codec t n) ≡ ok (t, n)
  unfolding decode_cursor encode_cursor fields_of
  decode_cursor-raw t n x raw e h p =
      rw (e, p.whole)
        (rw (rstrip-append p.digits p.pads p.digits_plain) (
          rw (p.digits_some, pad_count-fits _ _ p.pads_few p.pads_fit)
            (rw (sym p.whole) (
              rw (f.decoded (x ∷ raw)) (rw (sym e, f.loaded t n) (decode_payload-payload t n h))))))

  -- Let base64, orjson, datetimes and UUIDs read back what they wrote, and the base64 of a non-empty
  -- payload be digits and at most three =. Then the cursor of an aware datetime and a UUID is decoded
  -- to this pair, whatever padding it lost.
  pub decode_cursor-encode_cursor :
      (t : DateTime) (n : ℕ)
      → t.aware ≡ true
      → decode_cursor codec (encode_cursor codec t n) ≡ ok (t, n)
  decode_cursor-encode_cursor t n h =
      let (x, raw, e) = f.dumped t n in decode_cursor-raw t n x raw e h (f.padded x raw)

  -- An encoded cursor is not empty.
  pub encode_cursor-some : (t : DateTime) (n : ℕ) → is_empty (encode_cursor codec t n) ≡ false
  unfolding encode_cursor
  encode_cursor-some t n =
      let (x, raw, e) = f.dumped t n in
      let p = f.padded x raw in
      rw (e, p.whole) (rw (rstrip-append p.digits p.pads p.digits_plain) p.digits_some)
