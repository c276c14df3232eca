-- ===== src/Text.antt =====
-- Go's `strings` and the regular expressions of the program, over native strings.
use Prim.Native.Char.{Char, code}
use Prim.Native.String.{[], ◌∷◌}
use mathlib.Core.List.{List, [] as []ᴸ, ◌∷◌ as ◌∷ᴸ◌}
use stream_weave.Prelude.{
  ℕ, ◌≡◌, refl, String, Bool, true, false, ◌&&◌, ◌||◌, zero, suc, ltb, leb, ◌==◌, ◌+◌, ◌-◌,
  if◌then◌else◌,
}

-- unicode.IsSpace
is_space : Char → Bool
is_space ch =
    let c = code ch in
    (leb 9 c && leb c 13)
    || c == 32
    || c == 0x85
    || c == 0xa0
    || c == 0x1680
    || (leb 0x2000 c && leb c 0x200a)
    || c == 0x2028
    || c == 0x2029
    || c == 0x202f
    || c == 0x205f
    || c == 0x3000

trim_left : String → String
unfolding is_space
trim_left [] = []
trim_left (c ∷ s) = let rest = trim_left s in if is_space c then rest else c ∷ s

trim_right_step : Char → String → String
unfolding is_space
trim_right_step c [] = if is_space c then [] else c ∷ []
trim_right_step c (d ∷ s) = c ∷ d ∷ s

trim_right : String → String
unfolding trim_right_step
trim_right [] = []
trim_right (c ∷ s) = trim_right_step c (trim_right s)

-- strings.TrimSpace
unfoldable pub trim_space : String → String
unfolding trim_left trim_right
trim_space s = trim_right (trim_left s)

-- The character of `to` at the place where `ch` stands in `from`; `ch` itself if it is not there.
translate : String → String → Char → Char
translate [] to ch = ch
translate (f ∷ from) [] ch = ch
translate (f ∷ from) (t ∷ to) ch = if code f == code ch then t else translate from to ch

-- strings.ToUpper, on every character that has an upper case in ASCII. Any other character outside
-- ASCII has its upper case outside ASCII too and is kept: the callers then only test for [A-Z].
unfoldable pub to_upper : String → String
unfolding translate
to_upper [] = []
to_upper (c ∷ s) =
    translate "abcdefghijklmnopqrstuvwxyzıſ" "ABCDEFGHIJKLMNOPQRSTUVWXYZIS" c ∷ to_upper s

abbrev in_class : ℕ → ℕ → Char → Bool
in_class lo hi c = leb lo (code c) && leb (code c) hi

abbrev pub is_upper : Char → Bool
is_upper = in_class b'A' b'Z'

abbrev pub is_digit : Char → Bool
is_digit = in_class b'0' b'9'

abbrev pub is_alnum : Char → Bool
is_alnum c = is_upper c || in_class b'a' b'z' c || is_digit c

-- `[class]*$`
unfoldable pub all_chars : (Char → Bool) → String → Bool
all_chars p [] = true
all_chars p (c ∷ s) = p c && all_chars p s

-- `[class]{lo,hi}$`
unfoldable pub repeated : (Char → Bool) → ℕ → ℕ → String → Bool
repeated p lo hi [] = lo == 0
repeated p lo zero (c ∷ s) = false
repeated p zero (suc hi) (c ∷ s) = p c && repeated p zero hi s
repeated p (suc lo) (suc hi) (c ∷ s) = p c && repeated p lo hi s

-- `[A-Za-z0-9]+$`
plus_alnum : String → Bool
unfolding all_chars
plus_alnum [] = false
plus_alnum (c ∷ s) = is_alnum c && all_chars is_alnum s

-- `^prefix[A-Za-z0-9]+$`
unfoldable pub matches_id : String → String → Bool
unfolding plus_alnum
matches_id [] s = plus_alnum s
matches_id (p ∷ prefix) [] = false
matches_id (p ∷ prefix) (c ∷ s) = code p == code c && matches_id prefix s

abbrev code_char : Char → Bool
code_char c = is_upper c || is_digit c || code c == b'_'

-- `^[A-Z][A-Z0-9_]{1,most}$`
unfoldable pub matches_code : ℕ → String → Bool
unfolding repeated
matches_code most [] = false
matches_code most (c ∷ s) = is_upper c && repeated code_char 1 most s

-- strings.TrimPrefix(s, prefix), `whole` being s: the rest of the walk, or `whole` on a mismatch.
trim_prefix_from : String → String → String → String
trim_prefix_from whole [] s = s
trim_prefix_from whole (p ∷ prefix) [] = whole
trim_prefix_from whole (p ∷ prefix) (c ∷ s) =
    if code p == code c then trim_prefix_from whole prefix s else whole

unfoldable pub trim_prefix : String → String → String
unfolding trim_prefix_from
trim_prefix s prefix = trim_prefix_from s prefix s

-- `value[index+1:]` after the last colon; `whole` where there is none.
after_colon : String → String → String
after_colon whole [] = whole
after_colon whole (c ∷ s) = after_colon (if code c == b':' then s else whole) s

-- operationSuffix of store.go
unfoldable pub operation_suffix : String → String
unfolding after_colon
operation_suffix value = after_colon value value

unfoldable pub has_prefix : String → String → Bool
has_prefix s [] = true
has_prefix [] (p ∷ prefix) = false
has_prefix (c ∷ s) (p ∷ prefix) = code c == code p && has_prefix s prefix

-- A character in front of the first part of a split.
onto_first : Char → List String → List String
onto_first c []ᴸ = (c ∷ []) ∷ᴸ []ᴸ
onto_first c (part ∷ᴸ parts) = (c ∷ part) ∷ᴸ parts

-- strings.Split at one separating character
unfoldable pub split_on : ℕ → String → List String
unfolding onto_first
split_on sep [] = [] ∷ᴸ []ᴸ
split_on sep (c ∷ s) =
    let parts = split_on sep s in if code c == sep then [] ∷ᴸ parts else onto_first c parts

-- The pieces between single spaces, and those that are not empty: strings.Fields.
pieces : String → List String
unfolding onto_first is_space
pieces [] = [] ∷ᴸ []ᴸ
pieces (c ∷ s) = let parts = pieces s in if is_space c then [] ∷ᴸ parts else onto_first c parts

non_empty : List String → List String
non_empty []ᴸ = []ᴸ
non_empty ([] ∷ᴸ parts) = non_empty parts
non_empty ((c ∷ s) ∷ᴸ parts) = (c ∷ s) ∷ᴸ non_empty parts

unfoldable pub fields : String → List String
unfolding pieces non_empty
fields s = non_empty (pieces s)

suffixes :
    (operation_suffix "ord_1:reserve" ≡ "reserve")
    × (operation_suffix "reserve" ≡ "reserve")
    × (operation_suffix "a:b:c" ≡ "c")
    × (trim_prefix "ord_1" "ord_" ≡ "1")
    × (trim_prefix "orx_1" "ord_" ≡ "orx_1")
unfolding operation_suffix trim_prefix
suffixes = (refl, refl, refl, refl, refl)

trim_upper : to_upper (trim_space "  e u\t ") ≡ "E U"
unfolding to_upper trim_space
trim_upper = refl

ids :
    (matches_id "ord_" "ord_A1" ≡ true)
    × (matches_id "ord_" "ord_" ≡ false)
    × (matches_id "ord_" "ord_a-b" ≡ false)
unfolding matches_id
ids = (refl, refl, refl)

-- The bytes of a character in UTF-8.
char_bytes : Char → ℕ
char_bytes c =
    let n = code c in
    if ltb n 0x80 then 1 else if ltb n 0x800 then 2 else if ltb n 0x10000 then 3 else 4

-- Go's len of a string
unfoldable pub byte_len : String → ℕ
unfolding char_bytes
byte_len [] = 0
byte_len (c ∷ s) = char_bytes c + byte_len s

-- `s[:n]`, cut in front of a character that does not fit
unfoldable pub cut_bytes : ℕ → String → String
unfolding char_bytes
cut_bytes n [] = []
cut_bytes n (c ∷ s) =
    let rest = cut_bytes (n - char_bytes c) s in if leb (char_bytes c) n then c ∷ rest else []

abbrev key_char : Char → Bool
key_char c = is_alnum c || code c == b'.' || code c == b'_' || code c == b':' || code c == b'-'

-- `^[A-Za-z0-9._:-]{16,256}$`
unfoldable pub matches_key : String → Bool
unfolding repeated
matches_key s = repeated key_char 16 256 s
