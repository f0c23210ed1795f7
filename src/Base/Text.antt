-- ===== src/Base/Text.antt =====
-- The functions of Go's package strings that the program uses, over texts as lists of characters.
use Prim.Native.Nat.{ℕ}
use Prim.Native.Char.{code}
use Prim.Native.String.{String, ◌++◌}
use mathlib.Core.Bool.{Bool, true, false, ◌&&◌, ◌||◌}
use mathlib.Core.List.{List}
use open_xai_connect.Base.Tests.{nat_eq, leb, if◌then◌else◌, ◌==◌, string_eqs}

-- unicode.IsSpace
unfoldable pub is_space : ℕ → Bool
is_space c =
    (leb 9 c && leb c 13)
    || nat_eq c 32
    || nat_eq c 0x85
    || nat_eq c 0xa0
    || nat_eq c 0x1680
    || (leb 0x2000 c && leb c 0x200a)
    || nat_eq c 0x2028
    || nat_eq c 0x2029
    || nat_eq c 0x202f
    || nat_eq c 0x205f
    || nat_eq c 0x3000

abbrev is_empty : String → Bool
is_empty String.[] = true
is_empty (String.◌∷◌ c s) = false

trim_left : String → String
trim_left String.[] = String.[]
trim_left (String.◌∷◌ c s) =
    let rest = trim_left s in if is_space (code c) then rest else String.◌∷◌ c s

trim_right : String → String
trim_right String.[] = String.[]
trim_right (String.◌∷◌ c s) =
    let rest = trim_right s in
    if is_space (code c) && is_empty rest then String.[] else String.◌∷◌ c rest

-- strings.TrimSpace
unfoldable pub trim_space : String → String
unfolding is_space trim_left trim_right
trim_space s = trim_right (trim_left s)

-- strings.Fields: `word` holds the characters of the current word, the last one first
fields_from : String → String → List String
fields_from word String.[] = if is_empty word then List.[] else List.◌∷◌ word List.[]
fields_from word (String.◌∷◌ c s) =
    let here = fields_from String.[] s in
    let on = fields_from (word ++ String.◌∷◌ c String.[]) s in
    if is_space (code c) then (if is_empty word then here else List.◌∷◌ word here) else on

unfoldable pub fields : String → List String
unfolding is_space fields_from
fields s = fields_from String.[] s

-- strings.Contains with a one-character text
unfoldable pub contains_char : ℕ → String → Bool
contains_char c String.[] = false
contains_char c (String.◌∷◌ d s) = nat_eq (code d) c || contains_char c s

-- strings.HasPrefix(s, prefix)
unfoldable pub has_prefix : String → String → Bool
has_prefix s String.[] = true
has_prefix String.[] (String.◌∷◌ c p) = false
has_prefix (String.◌∷◌ d s) (String.◌∷◌ c p) = nat_eq (code d) (code c) && has_prefix s p

-- strings.Contains(s, part)
unfoldable pub contains_text : String → String → Bool
contains_text String.[] part = has_prefix String.[] part
contains_text (String.◌∷◌ c s) part = has_prefix (String.◌∷◌ c s) part || contains_text s part

-- strings.HasSuffix(s, suffix)
unfoldable pub has_suffix : String → String → Bool
has_suffix String.[] suffix = suffix == ""
has_suffix (String.◌∷◌ c s) suffix = (String.◌∷◌ c s == suffix) || has_suffix s suffix

-- strings.TrimSuffix with the suffix "."
unfoldable pub trim_dot : String → String
trim_dot String.[] = String.[]
trim_dot (String.◌∷◌ c s) =
    let rest = trim_dot s in
    if nat_eq (code c) b'.' && is_empty s then String.[] else String.◌∷◌ c rest
