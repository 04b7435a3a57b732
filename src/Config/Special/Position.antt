-- ===== src/Config/Special/Position.antt =====
-- src/config/loader.rs: the line and the column of an offset.
use gsc_fq.Common.{
  ℕ, suc, ◌+◌, ◌≡◌, ◌⊎◌, inl, inr, ◌∙◌, Bool, true, false, ◌||◌, [], ◌∷◌, ◌++◌, arith, ◌==◌, Bytes,
  length, length-append, take-append, min, append_assoc, if◌then◌else◌, count_if, All, Bool-cases,
}
use gsc_fq.Config.Special.{scan, offset_to_line_col}

-- A line feed or a carriage return.
abbrev pub is_break : ℕ → Bool
is_break b = b == 10 || b == 13

abbrev newlines : Bytes → ℕ
newlines bs = count_if (λ b. b == 10) bs

scan_line : (line column : ℕ) (bs : Bytes) → (scan line column bs).0 ≡ line + newlines bs
unfolding scan
scan_line line column [] = omega arith
scan_line line column (b ∷ bs) = elim (Bool-cases (b == 10)) [
  | inl feed ↦ rw feed (omega (arith, scan_line (suc line) 1 bs))
  | inr other ↦
      rw (other, scan) (omega (arith, scan_line line (if b == 13 then 1 else suc column) bs))
]

scan_plain :
    (line column : ℕ) (bs : Bytes)
    → All (λ b. is_break b ≡ false) bs
    → (scan line column bs).1 ≡ column + length bs
unfolding scan
scan_plain line column [] h = omega arith
scan_plain line column (b ∷ bs) (plain, h) = ground (arith, scan_plain line (suc column) bs h)

-- Behind a break the column starts again.
scan_break :
    (line column b : ℕ) (pre post : Bytes)
    → is_break b ≡ true
    → All (λ b. is_break b ≡ false) post
    → (scan line column (pre ++ (b ∷ post))).1 ≡ suc (length post)
unfolding scan
scan_break line column b [] post h plain =
    ground (arith, scan_plain (suc line) 1 post plain, scan_plain line 1 post plain)
scan_break line column b (x ∷ pre) post h plain = elim (Bool-cases (x == 10)) [
  | inl feed ↦ rw feed (scan_break (suc line) 1 b pre post h plain)
  | inr other ↦
      rw (other, scan) (scan_break line (if x == 13 then 1 else suc column) b pre post h plain)
]

-- The place of an offset: its line counts the line feeds before it, and its column the bytes behind
-- the last line feed or carriage return, or from the start where there is none; both begin at 1.
pub offset_to_line_col-place :
    (pre post rest : Bytes)
    → All (λ b. is_break b ≡ false) post
    → (pre ≡ []) ⊎ ((front : Bytes) × (b : ℕ) × (pre ≡ front ++ (b ∷ [])) × (is_break b ≡ true))
    → offset_to_line_col ((pre ++ post) ++ rest) (length (pre ++ post))
      ≡ (suc (newlines (pre ++ post)), suc (length post))
unfolding offset_to_line_col
offset_to_line_col-place pre post rest plain start =
    let all = pre ++ post in
    let short : min (length all) (length (all ++ rest)) ≡ length all =
      omega (arith, length-append all rest) in
    let column : (scan 1 1 all).1 ≡ suc (length post) = elim start [
      | inl first ↦ rw first (scan_plain 1 1 post plain ∙ omega arith)
      | inr (front, b, e, h) ↦
          rw (e, append_assoc front (b ∷ []) post) (scan_break 1 1 b front post h plain)
    ] in
    let line : (scan 1 1 all).0 ≡ suc (newlines all) = omega (arith, scan_line 1 1 all) in
    rw (short, take-append all rest) (λ i. (line i, column i))
