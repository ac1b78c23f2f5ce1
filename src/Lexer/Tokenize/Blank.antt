-- ===== src/Lexer/Tokenize/Blank.antt =====
-- What stands between tokens: spaces, tabs and comments, as a grammar of its own.
use loxis_programming_langua.Prelude.{
  true, false, not, ◌&&◌, [], ◌∷◌, ◌==◌, arith, ◌≡◌, refl, ap, ◌∙◌, Bool-cases, ◌⊎◌, inl, inr,
}
use loxis_programming_langua.Lexer.Cursor.{
  Bytes, Cursor, advance, skip_in, skip_while, peek, is_line_end, is_space, skip_space,
}
use loxis_programming_langua.Lexer.Scan.{comment_in}
use loxis_programming_langua.Lexer.Tokenize.Reads.{rest-advance}

-- Where a byte stands: between tokens, in a line comment, or in a block comment.
pub data Place : Type 0 where
  code line block : Place

-- `Blank p c d`: from `c`, at a place of kind `p`, to `d` there is no token.
pub data Blank : Place → Cursor → Cursor → Type 0 where
  done : {c : Cursor} → Blank code c c
  space :
      {c d : Cursor} → is_space (peek c.rest 0) ≡ true → Blank code (advance c) d → Blank code c d
  line_open :
      {c d : Cursor}
      → peek c.rest 0 ≡ b'/'
      → peek c.rest 1 ≡ b'/'
      → Blank line (advance (advance c)) d
      → Blank code c d
  line_byte :
      {c d : Cursor}
      → is_line_end (peek c.rest 0) ≡ false
      → Blank line (advance c) d
      → Blank line c d
  line_close :
      {c d : Cursor}
      → (c.rest ≡ []) ⊎ (is_line_end (peek c.rest 0) ≡ true)
      → Blank code c d
      → Blank line c d
  block_open :
      {c d : Cursor}
      → peek c.rest 0 ≡ b'/'
      → peek c.rest 1 ≡ b'*'
      → Blank block (advance (advance c)) d
      → Blank code c d
  block_byte :
      {c d : Cursor}
      → (peek c.rest 0 == b'*' && peek c.rest 1 == b'/') ≡ false
      → Blank block (advance c) d
      → Blank block c d
  block_close :
      {c d : Cursor}
      → peek c.rest 0 ≡ b'*'
      → peek c.rest 1 ≡ b'/'
      → Blank code (advance (advance c)) d
      → Blank block c d

pub Blank-trans : (p : Place) (c d e : Cursor) → Blank p c d → Blank code d e → Blank p c e
Blank-trans p c d e done s = s
Blank-trans p c d e (space h r) s = space h (Blank-trans code _ d e r s)
Blank-trans p c d e (line_open h h' r) s = line_open h h' (Blank-trans line _ d e r s)
Blank-trans p c d e (line_byte h r) s = line_byte h (Blank-trans line _ d e r s)
Blank-trans p c d e (line_close h r) s = line_close h (Blank-trans code _ d e r s)
Blank-trans p c d e (block_open h h' r) s = block_open h h' (Blank-trans block _ d e r s)
Blank-trans p c d e (block_byte h r) s = block_byte h (Blank-trans block _ d e r s)
Blank-trans p c d e (block_close h h' r) s = block_close h h' (Blank-trans code _ d e r s)

spaces-Blank : (xs : Bytes) (c : Cursor) → c.rest ≡ xs → Blank code c (skip_in is_space xs c)
unfolding skip_in
spaces-Blank [] c e = done
spaces-Blank (b ∷ xs) c e = elim (Bool-cases (is_space b)) [
  | inl y ↦
      rw (y, skip_in)
        (space (ap (λ (l : Bytes). is_space (peek l 0)) e ∙ y)
          (spaces-Blank xs (advance c) (rest-advance c e)))
  | inr y ↦ rw (y, skip_in) done
]

pub skip_space-Blank : (c : Cursor) → Blank code c (skip_space c)
unfolding skip_space
skip_space-Blank c = spaces-Blank c.rest c refl

line_body-Blank :
    (xs : Bytes) (c : Cursor) → c.rest ≡ xs → Blank line c (skip_in (λ b. not (is_line_end b)) xs c)
unfolding skip_in
line_body-Blank [] c e = line_close (inl e) done
line_body-Blank (b ∷ xs) c e = elim (Bool-cases (is_line_end b)) [
  | inl y ↦
      rw (y, skip_in) (line_close (inr (ap (λ (l : Bytes). is_line_end (peek l 0)) e ∙ y)) done)
  | inr y ↦
      rw (y, skip_in)
        (line_byte (ap (λ (l : Bytes). is_line_end (peek l 0)) e ∙ y)
          (line_body-Blank xs (advance c) (rest-advance c e)))
]

pub line_comment-Blank :
    (c : Cursor)
    → peek c.rest 0 ≡ b'/'
    → peek c.rest 1 ≡ b'/'
    → Blank code c (skip_while (λ b. not (is_line_end b)) (advance (advance c)))
line_comment-Blank c h h' = line_open h h' (line_body-Blank _ (advance (advance c)) refl)

-- The scanner of a block comment stops at the end of the source or where the comment closes.
comment_in-Blank :
    (xs : Bytes) (c : Cursor)
    → c.rest ≡ xs
    → ((comment_in xs c).rest ≡ []) ⊎ Blank block c (advance (advance (comment_in xs c)))
unfolding comment_in
comment_in-Blank [] c e = inl e
comment_in-Blank (b ∷ xs) c e = elim (Bool-cases (b == b'*' && peek xs 0 == b'/')) [
  | inl y ↦
      rw (y, comment_in)
        (inr (
          block_close (ap (λ (l : Bytes). peek l 0) e ∙ ground (arith, y))
            (ap (λ (l : Bytes). peek l 1) e ∙ ground (arith, y)) done))
  | inr y ↦
      rw (y, comment_in)
        (elim (comment_in-Blank xs (advance c) (rest-advance c e)) [
          | inl z ↦ inl z
          | inr z ↦
              inr (block_byte (ap (λ (l : Bytes). peek l 0 == b'*' && peek l 1 == b'/') e ∙ y) z)
        ])
]

pub block_comment-Blank :
    (c d : Cursor)
    → peek c.rest 0 ≡ b'/'
    → peek c.rest 1 ≡ b'*'
    → comment_in (advance (advance c)).rest (advance (advance c)) ≡ d
    → (d.rest ≡ []) ⊎ Blank code c (advance (advance d))
block_comment-Blank c d h h' p = elim (comment_in-Blank _ (advance (advance c)) refl) [
  | inl z ↦ inl (rw p at z)
  | inr z ↦ inr (block_open h h' (rw p at z))
]
