-- ===== src/Config/Special.antt =====
-- src/config/loader.rs: the sanitizing of special values before the TOML parser, and the line and the
-- column of an offset. A text is a list of code points, and `none` a panic.
use gsc_fq.Common.{
  ℕ, zero, suc, ◌+◌, ◌-◌, ◌*◌, Bool, true, false, not, ◌&&◌, ◌||◌, Option, none, some, List, [],
  ◌∷◌, ◌++◌, arith, leb, ltb, ◌==◌, if◌then◌else◌, Bytes, bytes_eq, codes, length, take, min, map,
}
use gsc_fq.Config.Text.{is_whitespace, trim, trim_start, leading, byte_len, take_bytes}
use gsc_fq.Config.Validate.{Warning, to_lower, is_null}
pub mod Position
pub mod Quotes

-- The lines of a text, each with whether a line feed ends it.
abbrev pub onto_line : ℕ → List (Bytes × Bool) → List (Bytes × Bool)
onto_line c [] = (c ∷ [], false) ∷ []
onto_line c ((l, ended) ∷ ls) = (c ∷ l, ended) ∷ ls

unfoldable pub split_inclusive : Bytes → List (Bytes × Bool)
split_inclusive [] = []
split_inclusive (c ∷ cs) =
    let rest = split_inclusive cs in if c == 10 then ([], true) ∷ rest else onto_line c rest

-- What is before and behind the first equals sign.
abbrev pub onto_key : ℕ → Option (Bytes × Bytes) → Option (Bytes × Bytes)
onto_key c none = none
onto_key c (some (key, rest)) = some (c ∷ key, rest)

unfoldable pub split_at_eq : Bytes → Option (Bytes × Bytes)
split_at_eq [] = none
split_at_eq (c ∷ cs) =
    let rest = split_at_eq cs in if c == b'=' then some ([], cs) else onto_key c rest

unfoldable pub ends_word : Bytes → Bool
unfolding is_whitespace
ends_word [] = true
ends_word (c ∷ cs) = is_whitespace c || c == b'#'

-- A value `null`, in quotes; `none` is the panic of a cut inside a character.
unfoldable pub quote_null : Bytes → Bytes → Bytes → Option Bytes
unfolding take_bytes byte_len trim_start leading is_null ends_word
quote_null line key rest =
    if ltb (byte_len (trim_start rest)) 4
    then some line
    else elim (take_bytes 4 (trim_start rest)) [
      | none ↦ none
      | some (word, remainder) ↦
          if is_null word && ends_word remainder
          then some (key ++ (b'=' ∷ (leading rest ++ (codes "\"null\"" ++ remainder))))
          else some line
    ]

unfoldable pub sanitize_line : Bytes → Option Bytes
unfolding split_at_eq quote_null trim
sanitize_line line = elim (split_at_eq line) [
  | none ↦ some line
  | some (key, rest) ↦
      if bytes_eq (map to_lower (trim key)) (codes "source_ip")
      then quote_null line key rest
      else some line
]

abbrev pub newline : Bool → Bytes
newline true = 10 ∷ []
newline false = []

unfoldable pub sanitize_lines : List (Bytes × Bool) → Option Bytes
unfolding sanitize_line
sanitize_lines [] = some []
sanitize_lines ((line, ended) ∷ lines) = elim (sanitize_line line) [
  | none ↦ none
  | some replaced ↦ elim (sanitize_lines lines) [
    | none ↦ none
    | some rest ↦ some (replaced ++ (newline ended ++ rest))
  ]
]

abbrev pub ends_with_newline : Bytes → Bool
ends_with_newline [] = false
ends_with_newline (c ∷ []) = c == 10
ends_with_newline (c ∷ d ∷ cs) = ends_with_newline (d ∷ cs)

abbrev pub pop : Bytes → Bytes
pop [] = []
pop (c ∷ []) = []
pop (c ∷ d ∷ cs) = c ∷ pop (d ∷ cs)

abbrev pub without_added : Bytes → Bytes → Bytes
without_added content sanitized =
    if not (ends_with_newline content) && ends_with_newline sanitized
    then pop sanitized
    else sanitized

unfoldable pub sanitize_special_values : Bytes → Option (Bytes × List Warning)
unfolding sanitize_lines split_inclusive
sanitize_special_values content = elim (sanitize_lines (split_inclusive content)) [
  | none ↦ none
  | some sanitized ↦ some (without_added content sanitized, [])
]

-- `offset_to_line_col`: the loop over the bytes before the offset.
unfoldable pub scan : ℕ → ℕ → Bytes → ℕ × ℕ
scan line column [] = (line, column)
scan line column (b ∷ bs) =
    if b == 10 then scan (suc line) 1 bs else scan line (if b == 13 then 1 else suc column) bs

unfoldable pub offset_to_line_col : Bytes → ℕ → ℕ × ℕ
unfolding scan
offset_to_line_col bytes offset = scan 1 1 (take (min offset (length bytes)) bytes)
