-- ===== src/Text.antt =====
-- Go strings as lists of bytes, with what the programs use of the package `strings`.
pub mod Equality
pub mod Trim
pub mod Number
pub mod Search
pub mod Lines
use Prim.Native.Char.{code}
use Prim.Native.String.{String}
use mathlib.Core.Option
use mqtt_home_automation.Base.{
  Option, none, some, ℕ, zero, suc, ◌+◌, ◌-◌, ◌/◌, ◌%◌, ◌≡◌, refl, Bool, true, false, ◌&&◌, ◌||◌,
  List, [], ◌∷◌, ◌++◌, map, leb, ltb, ◌==◌, if◌then◌else◌, length, drop,
}

abbrev pub Bytes : Type 0
Bytes = List ℕ

-- The bytes of an ASCII literal.
abbrev pub codes : String → Bytes
codes String.[] = []
codes (String.◌∷◌ c s) = code c ∷ codes s

-- s == t
unfoldable pub str_eq : Bytes → Bytes → Bool
str_eq [] [] = true
str_eq [] (d ∷ t) = false
str_eq (c ∷ s) [] = false
str_eq (c ∷ s) (d ∷ t) = (c == d) && str_eq s t

-- strings.HasPrefix(s, prefix)
unfoldable pub has_prefix : Bytes → Bytes → Bool
has_prefix s [] = true
has_prefix [] (c ∷ p) = false
has_prefix (d ∷ s) (c ∷ p) = (d == c) && has_prefix s p

-- strings.TrimPrefix(s, prefix)
unfoldable pub trim_prefix : Bytes → Bytes → Bytes
unfolding has_prefix
trim_prefix s p = if has_prefix s p then drop (length p) s else s

-- unicode.IsSpace on ASCII.
is_space : ℕ → Bool
is_space c = c == 32 || (leb 9 c && leb c 13)

unfoldable pub trim_left : Bytes → Bytes
unfolding is_space
trim_left [] = []
trim_left (c ∷ s) = if is_space c then trim_left s else c ∷ s

keep_end : ℕ → Bytes → Bytes
unfolding is_space
keep_end c [] = if is_space c then [] else c ∷ []
keep_end c (d ∷ s) = c ∷ d ∷ s

unfoldable pub trim_right : Bytes → Bytes
unfolding keep_end
trim_right [] = []
trim_right (c ∷ s) = keep_end c (trim_right s)

-- strings.TrimSpace(s)
unfoldable pub trim_space : Bytes → Bytes
unfolding trim_left trim_right
trim_space s = trim_right (trim_left s)

-- strings.Contains(s, substr)
unfoldable pub contains : Bytes → Bytes → Bool
unfolding has_prefix
contains [] sub = has_prefix [] sub
contains (c ∷ s) sub = has_prefix (c ∷ s) sub || contains s sub

push_first : ℕ → List Bytes → List Bytes
push_first c [] = (c ∷ []) ∷ []
push_first c (l ∷ ls) = (c ∷ l) ∷ ls

-- strings.Split(s, sep) for a separator of one byte
unfoldable pub split : Bytes → ℕ → List Bytes
unfolding push_first
split [] sep = [] ∷ []
split (c ∷ s) sep = let rest = split s sep in if c == sep then [] ∷ rest else push_first c rest

-- strings.ReplaceAll(s, old, new) for a text `old` that is not empty; `skip` bytes of a match
-- are still to be passed over.
replace_from : ℕ → Bytes → Bytes → Bytes → Bytes
unfolding has_prefix
replace_from skip old new [] = []
replace_from (suc skip) old new (c ∷ s) = replace_from skip old new s
replace_from zero old new (c ∷ s) =
    let matched = new ++ replace_from (length old - 1) old new s in
    let copied = c ∷ replace_from 0 old new s in if has_prefix (c ∷ s) old then matched else copied

unfoldable pub replace_all : Bytes → Bytes → Bytes → Bytes
unfolding replace_from
replace_all s old new = replace_from 0 old new s

lower_byte : ℕ → ℕ
lower_byte c = if leb b'A' c && leb c b'Z' then c + 32 else c

-- strings.ToLower(s) on ASCII
unfoldable pub to_lower : Bytes → Bytes
unfolding lower_byte
to_lower s = map lower_byte s

-- The digits of n in front of a text; a number needs no more rounds than itself.
digits : ℕ → ℕ → Bytes → Bytes
digits zero n out = out
digits (suc fuel) n out =
    let more = digits fuel (n / 10) ((b'0' + n % 10) ∷ out) in
    if ltb n 10 then (b'0' + n) ∷ out else more

-- %d of a number that is not negative
unfoldable pub itoa : ℕ → Bytes
unfolding digits
itoa n = digits (suc n) n []

-- The word so far, if there is one.
flush : Bytes → List Bytes → List Bytes
flush [] words = words
flush (c ∷ s) words = (c ∷ s) ∷ words

fields_from : Bytes → Bytes → List Bytes
unfolding is_space flush
fields_from [] word = flush word []
fields_from (c ∷ s) word =
    let cut = flush word (fields_from s []) in
    let grown = fields_from s (word ++ c ∷ []) in if is_space c then cut else grown

-- strings.Fields(s)
unfoldable pub fields : Bytes → List Bytes
unfolding fields_from
fields s = fields_from s []

-- strings.Index(s, substr), where it is not -1
unfoldable pub index : Bytes → Bytes → Option ℕ
unfolding has_prefix
index [] sub = if has_prefix [] sub then some 0 else none
index (c ∷ s) sub =
    let rest = Option.map suc (index s sub) in if has_prefix (c ∷ s) sub then some 0 else rest

-- strings.Join(parts, sep)
unfoldable pub join : List Bytes → Bytes → Bytes
join [] sep = []
join (p ∷ []) sep = p
join (p ∷ q ∷ ps) sep = p ++ (sep ++ join (q ∷ ps) sep)
