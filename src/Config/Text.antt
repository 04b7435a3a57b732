-- ===== src/Config/Text.antt =====
-- src/config/loader.rs: what it uses of the standard library's texts, as lists of code points.
use gsc_fq.Common.{
  ℕ, zero, suc, ◌+◌, ◌-◌, ◌/◌, ◌%◌, Bool, true, false, ◌&&◌, ◌||◌, Option, none, some, [], ◌∷◌,
  ◌++◌, leb, ltb, ◌==◌, if◌then◌else◌, Bytes,
}

-- `char::is_whitespace`.
unfoldable pub is_whitespace : ℕ → Bool
is_whitespace c =
    (leb 9 c && leb c 13)
    || c == 32
    || c == 133
    || c == 160
    || c == 5760
    || (leb 8192 c && leb c 8202)
    || c == 8232
    || c == 8233
    || c == 8239
    || c == 8287
    || c == 12288

unfoldable pub trim_start : Bytes → Bytes
unfolding is_whitespace
trim_start [] = []
trim_start (c ∷ cs) = let rest = trim_start cs in if is_whitespace c then rest else c ∷ cs

-- The white space that `trim_start` cuts off.
unfoldable pub leading : Bytes → Bytes
unfolding is_whitespace
leading [] = []
leading (c ∷ cs) = let rest = leading cs in if is_whitespace c then c ∷ rest else []

abbrev pub keep_unless_blank : ℕ → Bool → Bytes → Bytes
keep_unless_blank c true [] = []
keep_unless_blank c true (d ∷ ds) = c ∷ d ∷ ds
keep_unless_blank c false ds = c ∷ ds

pub trim_end : Bytes → Bytes
unfolding is_whitespace
trim_end [] = []
trim_end (c ∷ cs) = keep_unless_blank c (is_whitespace c) (trim_end cs)

unfoldable pub trim : Bytes → Bytes
unfolding trim_start trim_end
trim text = trim_end (trim_start text)

-- The length of a character in UTF-8, and that of a text.
unfoldable pub len_utf8 : ℕ → ℕ
len_utf8 c = if ltb c 128 then 1 else if ltb c 2048 then 2 else if ltb c 65536 then 3 else 4

unfoldable pub byte_len : Bytes → ℕ
unfolding len_utf8
byte_len [] = 0
byte_len (c ∷ cs) = len_utf8 c + byte_len cs

-- A text cut at a number of bytes; `none` where that is inside a character or behind the end.
abbrev pub onto_front : ℕ → Option (Bytes × Bytes) → Option (Bytes × Bytes)
onto_front c none = none
onto_front c (some (front, rest)) = some (c ∷ front, rest)

unfoldable pub take_bytes : ℕ → Bytes → Option (Bytes × Bytes)
unfolding len_utf8
take_bytes zero text = some ([], text)
take_bytes (suc n) [] = none
take_bytes (suc n) (c ∷ cs) =
    let rest = take_bytes (suc n - len_utf8 c) cs in
    if leb (len_utf8 c) (suc n) then onto_front c rest else none

abbrev pub char_utf8 : ℕ → Bytes
char_utf8 c =
    if ltb c 128
    then c ∷ []
    else if ltb c 2048
    then (192 + c / 64) ∷ (128 + c % 64) ∷ []
    else if ltb c 65536
    then (224 + c / 4096) ∷ (128 + c / 64 % 64) ∷ (128 + c % 64) ∷ []
    else (240 + c / 262144) ∷ (128 + c / 4096 % 64) ∷ (128 + c / 64 % 64) ∷ (128 + c % 64) ∷ []

unfoldable pub utf8 : Bytes → Bytes
utf8 [] = []
utf8 (c ∷ cs) = char_utf8 c ++ utf8 cs

-- What is before the first place of a character.
unfoldable pub before : ℕ → Bytes → Option Bytes
before stop [] = none
before stop (c ∷ cs) =
    let rest = before stop cs in
    if c == stop then some [] else elim rest [ none ↦ none | some front ↦ some (c ∷ front) ]

unfoldable pub strip_prefix : Bytes → Bytes → Option Bytes
strip_prefix [] text = some text
strip_prefix (p ∷ ps) [] = none
strip_prefix (p ∷ ps) (c ∷ cs) = let rest = strip_prefix ps cs in if p == c then rest else none
