-- ===== src/Base/Text.antt =====
-- Python's text operations on the native `String`: split and strip at one character, partition.
pub mod Partition
use Prim.Native.Nat.{ℕ}
use Prim.Native.Char.{Char, code}
use Prim.Native.String.{String, ◌++◌}
use mathlib.Core.Path.{◌≡◌, refl}
use mathlib.Core.Bool.{Bool, true, false, ◌&&◌, ◌||◌}
use mathlib.Core.List.{List, [], ◌∷◌}
use bigrag.Base.Tests.{◌==◌, if◌then◌else◌}

-- `s == ""`
abbrev pub is_empty : String → Bool
is_empty String.[] = true
is_empty (String.◌∷◌ c s) = false

-- `c in s`, for the character with code `k`
unfoldable pub has_char : ℕ → String → Bool
has_char k String.[] = false
has_char k (String.◌∷◌ c s) = code c == k || has_char k s

abbrev pub add_front : Char → List String → List String
add_front c [] = String.◌∷◌ c "" ∷ []
add_front c (w ∷ ws) = String.◌∷◌ c w ∷ ws

-- `s.split(chr(k))`: always at least one part
unfoldable pub split : ℕ → String → List String
split k String.[] = "" ∷ []
split k (String.◌∷◌ c s) =
    let rest = split k s in if code c == k then "" ∷ rest else add_front c rest

-- `s.lstrip(chr(k))`
unfoldable pub lstrip : ℕ → String → String
lstrip k String.[] = ""
lstrip k (String.◌∷◌ c s) = let rest = lstrip k s in if code c == k then rest else String.◌∷◌ c s

-- A character in front of a stripped text stays unless nothing follows it and it is stripped too.
abbrev pub rstrip_step : ℕ → Char → String → String
rstrip_step k c String.[] = if code c == k then "" else String.◌∷◌ c ""
rstrip_step k c (String.◌∷◌ d s) = String.◌∷◌ c (String.◌∷◌ d s)

-- `s.rstrip(chr(k))`
unfoldable pub rstrip : ℕ → String → String
rstrip k String.[] = ""
rstrip k (String.◌∷◌ c s) = rstrip_step k c (rstrip k s)

-- `s.strip(chr(k))`
unfoldable pub strip : ℕ → String → String
unfolding lstrip rstrip
strip k s = lstrip k (rstrip k s)

-- The first and third part of `s.partition(chr(k))`.
unfoldable pub before : ℕ → String → String
before k String.[] = ""
before k (String.◌∷◌ c s) = let rest = before k s in if code c == k then "" else String.◌∷◌ c rest

unfoldable pub after : ℕ → String → String
after k String.[] = ""
after k (String.◌∷◌ c s) = let rest = after k s in if code c == k then s else rest

-- `s.startswith(p)`
unfoldable pub starts_with : String → String → Bool
starts_with s String.[] = true
starts_with String.[] (String.◌∷◌ d p) = false
starts_with (String.◌∷◌ c s) (String.◌∷◌ d p) = code c == code d && starts_with s p

-- `s.endswith(chr(k))`
unfoldable pub ends_with_char : ℕ → String → Bool
ends_with_char k String.[] = false
ends_with_char k (String.◌∷◌ c String.[]) = code c == k
ends_with_char k (String.◌∷◌ c (String.◌∷◌ d s)) = ends_with_char k (String.◌∷◌ d s)

-- `s.removeprefix(p)` where `p` is known to be there, and `s[n:]` for `n` the length of `p`.
unfoldable pub drop_text : String → String → String
drop_text s String.[] = s
drop_text String.[] (String.◌∷◌ d p) = ""
drop_text (String.◌∷◌ c s) (String.◌∷◌ d p) = drop_text s p

split_test : split b'/' "/v1/query" ≡ "" ∷ "v1" ∷ "query" ∷ []
unfolding split
split_test = refl

strip_test : strip b'/' "//v1/query/" ≡ "v1/query"
unfolding strip
strip_test = refl

partition_test : before b':' "query:read" ++ "|" ++ after b':' "query:read" ≡ "query|read"
unfolding before after
partition_test = refl
