-- ===== src/Config/Special/Quotes.antt =====
-- src/config/loader.rs: what sanitizing does to a line that sets a source address.
use gsc_fq.Common.{
  ℕ, ◌≤◌, ◌≡◌, refl, ap, true, false, none, some, [], ◌∷◌, ◌++◌, arith, ◌==◌, ltb, leb, Bytes,
  bytes_eq, codes, map, All,
}
use gsc_fq.Config.Text.{is_whitespace, trim, trim_start, leading, byte_len, len_utf8, take_bytes}
use gsc_fq.Config.Validate.{to_lower, is_null}
use gsc_fq.Config.Special.{split_at_eq, ends_word, quote_null, sanitize_line}

split_at_eq-key :
    (key rest : Bytes)
    → All (λ c. (c == b'=') ≡ false) key
    → split_at_eq (key ++ (b'=' ∷ rest)) ≡ some (key, rest)
unfolding split_at_eq
split_at_eq-key [] rest h = refl
split_at_eq-key (c ∷ key) rest (other, h) = rw (other, split_at_eq-key key rest h) refl

-- The first character that is no white space.
StartsPlain : Bytes → Type 0
StartsPlain [] = ⊥
StartsPlain (c ∷ cs) = is_whitespace c ≡ false

trim_start-blank :
    (blank rest : Bytes)
    → All (λ c. is_whitespace c ≡ true) blank
    → StartsPlain rest
    → (trim_start (blank ++ rest) ≡ rest) × (leading (blank ++ rest) ≡ blank)
unfolding trim_start leading StartsPlain
trim_start-blank [] [] h p = elim p [ ]
trim_start-blank [] (c ∷ rest) h p = rw (p, trim_start, leading) (refl, refl)
trim_start-blank (b ∷ blank) rest (white, h) p =
    let (cut, kept) = trim_start-blank blank rest h p in
    rw (white, trim_start, leading) (cut, ap (λ (t : Bytes). b ∷ t) kept)

quote_null-quotes :
    (line key blank rest : Bytes)
    → All (λ c. is_whitespace c ≡ true) blank
    → ends_word rest ≡ true
    → quote_null line key (blank ++ (codes "null" ++ rest))
      ≡ some (key ++ (b'=' ∷ (blank ++ (codes "\"null\"" ++ rest))))
unfolding quote_null take_bytes byte_len is_null StartsPlain is_whitespace len_utf8
quote_null-quotes line key blank rest white ends =
    let (cut, kept) = trim_start-blank blank (codes "null" ++ rest) white refl in
    let long : ltb (byte_len (codes "null" ++ rest)) 4 ≡ false = ground arith in
    rw (cut, kept, long, ends) refl

-- A value null of a source address, at the end of the line or before white space or a comment, is put
-- in quotes, and the rest of the line stays.
sanitize_line-quotes :
    (key blank rest : Bytes)
    → All (λ c. (c == b'=') ≡ false) key
    → bytes_eq (map to_lower (trim key)) (codes "source_ip") ≡ true
    → All (λ c. is_whitespace c ≡ true) blank
    → ends_word rest ≡ true
    → sanitize_line (key ++ (b'=' ∷ (blank ++ (codes "null" ++ rest))))
      ≡ some (key ++ (b'=' ∷ (blank ++ (codes "\"null\"" ++ rest))))
unfolding sanitize_line
sanitize_line-quotes key blank rest no_eq is_source white ends =
    let split = split_at_eq-key key (blank ++ (codes "null" ++ rest)) no_eq in
    rw (split, sanitize_line, is_source)
      (quote_null-quotes (key ++ (b'=' ∷ (blank ++ (codes "null" ++ rest)))) key blank rest white
        ends)

quote_null-panics :
    (line key rest : Bytes) (c d : ℕ)
    → len_utf8 c ≡ 3
    → 2 ≤ len_utf8 d
    → is_whitespace c ≡ false
    → quote_null line key (c ∷ d ∷ rest) ≡ none
unfolding quote_null take_bytes byte_len trim_start
quote_null-panics line key rest c d three two plain =
    let long : ltb (byte_len (c ∷ d ∷ rest)) 4 ≡ false = ground arith in
    let cut : leb (len_utf8 d) 1 ≡ false = ground arith in rw (plain, long, three, cut) refl

-- A value that starts with a character of three bytes and one of more than one: the cut behind four
-- bytes is inside the second, and the loader panics.
sanitize_line-panics :
    (c d : ℕ) (rest : Bytes)
    → len_utf8 c ≡ 3
    → 2 ≤ len_utf8 d
    → is_whitespace c ≡ false
    → sanitize_line (codes "source_ip=" ++ (c ∷ d ∷ rest)) ≡ none
unfolding sanitize_line split_at_eq trim
sanitize_line-panics c d rest three two plain =
    quote_null-panics (codes "source_ip=" ++ (c ∷ d ∷ rest)) (codes "source_ip") rest c d three two
      plain
