-- ===== src/Prelude/Strings.antt =====
-- Texts as lists of code points, and the methods of Python's `str` that the program calls.
use Prim.Native.Nat.{ℕ, zero, suc, ◌+◌, ◌/◌, ◌%◌}
use Prim.Native.Char.{code}
use Prim.Native.String.{String}
use mathlib.Core.Bool.{Bool, true, false, ◌&&◌, ◌||◌, not}
use mathlib.Core.List.{List, [], ◌∷◌, ◌++◌, reverse}
use enterprise_data_copilot.Prelude.Tests.{
  Eq, ◌==◌, nat_eq, list_beq, list_beq_iff, leb, ltb, if◌then◌else◌,
}
use enterprise_data_copilot.Prelude.Lists.{contains}

abbrev pub Text : Type 0
Text = List ℕ

abbrev pub codes : String → Text
codes String.[] = []
codes (String.◌∷◌ c s) = code c ∷ codes s

instance abbrev pub text_eq : Eq Text
text_eq = record { beq = list_beq; beq_iff = list_beq_iff }

instance abbrev pub texts_eq : Eq (List Text)
texts_eq = record { beq = list_beq; beq_iff = list_beq_iff }

-- `not s`
abbrev pub is_empty : Text → Bool
is_empty [] = true
is_empty (c ∷ s) = false

-- `str.replace(old, new)` for single characters.
abbrev pub replace_char : ℕ → ℕ → Text → Text
replace_char old new [] = []
replace_char old new (c ∷ s) = (if c == old then new else c) ∷ replace_char old new s

abbrev between : ℕ → ℕ → ℕ → Bool
between lo hi c = leb lo c && leb c hi

-- `str.isspace` of one character.
abbrev pub is_space : ℕ → Bool
is_space c =
    between 9 13 c
    || between 28 32 c
    || between 0x2000 0x200a c
    || contains (0x85 ∷ 0xa0 ∷ 0x1680 ∷ 0x2028 ∷ 0x2029 ∷ 0x202f ∷ 0x205f ∷ 0x3000 ∷ []) c

abbrev pub lstrip : Text → Text
lstrip [] = []
lstrip (c ∷ s) = let rest = lstrip s in if is_space c then rest else c ∷ s

-- `str.strip()`
unfoldable pub strip : Text → Text
strip s = reverse (lstrip (reverse (lstrip s)))

-- `str.split(sep)` for a separator of one character: at least one part.
abbrev pub push_char : ℕ → List Text → List Text
push_char c [] = (c ∷ []) ∷ []
push_char c (p ∷ ps) = (c ∷ p) ∷ ps

abbrev pub split_on : ℕ → Text → List Text
split_on sep [] = [] ∷ []
split_on sep (c ∷ s) = let rest = split_on sep s in if c == sep then [] ∷ rest else push_char c rest

-- `str.split()`: the runs of characters that are no white space.
abbrev pub words_from : Text → Text → List Text
words_from run [] = if is_empty run then [] else reverse run ∷ []
words_from run (c ∷ s) =
    let next = words_from (if is_space c then [] else c ∷ run) s in
    if is_space c && not (is_empty run) then reverse run ∷ next else next

abbrev pub join : Text → List Text → Text
join sep [] = []
join sep (w ∷ []) = w
join sep (w ∷ v ∷ ws) = w ++ (sep ++ join sep (v ∷ ws))

-- `" ".join(s.split())`
unfoldable pub normalize_space : Text → Text
normalize_space s = join (codes " ") (words_from [] s)

-- `str(n)`, on fuel: a number has at most as many digits as its value plus one.
digits_from : ℕ → ℕ → Text → Text
digits_from zero n acc = acc
digits_from (suc fuel) n acc =
    let rest = digits_from fuel (n / 10) ((48 + n % 10) ∷ acc) in
    if ltb n 10 then (48 + n) ∷ acc else rest

unfoldable pub show_nat : ℕ → Text
unfolding digits_from
show_nat n = digits_from (suc n) n []

-- The order of code points, for `sorted`.
abbrev pub text_lt : Text → Text → Bool
text_lt s [] = false
text_lt [] (d ∷ t) = true
text_lt (c ∷ s) (d ∷ t) = ltb c d || (c == d && text_lt s t)

-- The order of tuples of texts.
abbrev pub list_lt : List Text → List Text → Bool
list_lt ss [] = false
list_lt [] (t ∷ ts) = true
list_lt (s ∷ ss) (t ∷ ts) = text_lt s t || (s == t && list_lt ss ts)

-- `sorted(set(...))`: insertion into a strictly increasing list.
abbrev pub insert_sorted : Text → List Text → List Text
insert_sorted s [] = s ∷ []
insert_sorted s (t ∷ ts) =
    let rest = insert_sorted s ts in
    if s == t then t ∷ ts else if text_lt s t then s ∷ t ∷ ts else t ∷ rest

abbrev pub sorted_set : List Text → List Text
sorted_set [] = []
sorted_set (s ∷ ss) = insert_sorted s (sorted_set ss)

abbrev pub starts_with : Text → Text → Bool
starts_with [] s = true
starts_with (c ∷ p) [] = false
starts_with (c ∷ p) (d ∷ s) = c == d && starts_with p s

-- `part in whole`
abbrev pub is_infix : Text → Text → Bool
is_infix part [] = is_empty part
is_infix part (c ∷ s) = starts_with part (c ∷ s) || is_infix part s
