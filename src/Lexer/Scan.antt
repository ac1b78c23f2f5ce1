-- ===== src/Lexer/Scan.antt =====
-- The scanners of `Lexer::tokenize` for one kind of token each: literals, comments, numbers,
-- operators (src/cpp/v2/frontend/Lexer.cpp).
use loxis_programming_langua.Prelude.{
  ℕ, ◌+◌, ◌-◌, ◌^◌, ◌%◌, Bool, true, false, not, ◌&&◌, ◌||◌, [], ◌∷◌, Option, none, some, ◌==◌,
  if◌then◌else◌,
}
use loxis_programming_langua.Lexer.Token.{Tk}
use loxis_programming_langua.Lexer.Cursor.{
  Bytes, Cursor, peek, advance, skip_while, is_digit, digit_or_under, xdigit_or_under,
}

-- `Lexer::literalStr`, its three nested loops as one walk over the bytes: in the text, in the code of
-- `${...}` at a brace depth, or in a string inside that code; after a backslash, the next byte is
-- taken as it is.
pub data Mode : Type 0 where
  text text_escape open_brace : Mode
  code code_escape quoted quoted_escape : ℕ → Mode

pub data Move : Type 0 where
  stop : Move
  next : Mode → Move

unfoldable pub transition : Mode → ℕ → ℕ → Move
transition text b after =
    if b == b'\\'
    then next text_escape
    else if b == 0x22
    then stop
    else if b == b'$' && after == b'{'
    then next open_brace
    else next text
transition text_escape b after = next text
transition open_brace b after = next (code 1)
transition (code d) b after =
    if b == b'{'
    then next (code (d + 1))
    else if b == b'}'
    then next (if d == 1 then text else code (d - 1))
    else if b == 0x22
    then next (quoted d)
    else if b == b'\\'
    then next (code_escape d)
    else next (code d)
transition (code_escape d) b after = next (code d)
transition (quoted d) b after =
    if b == 0x22
    then next (code d)
    else if b == b'\\'
    then next (quoted_escape d)
    else next (quoted d)
transition (quoted_escape d) b after = next (quoted d)

-- `none` at the end of the source: "unterminated string literal".
unfoldable pub string_in : Mode → Bytes → Cursor → Option Cursor
string_in m [] c = none
string_in m (b ∷ rest) c = elim (transition m b (peek rest 0)) [
  | stop ↦ some (advance c)
  | next m' ↦ string_in m' rest (advance c)
]

unfoldable pub literal_str : Cursor → Option Cursor
literal_str c = let c' = advance c in string_in text c'.rest c'

-- `Lexer::literalChar`: a byte or an escape, then the closing quote; the second part is where it
-- stands when the quote is missing.
abbrev pub at_end : Cursor → Bool
at_end c = elim c.rest [ [] ↦ true | _ ∷ _ ↦ false ]

unfoldable pub char_body : Cursor → Cursor
char_body c =
    let b = peek c.rest 0 in
    if not (at_end c) && b == b'\\'
    then (let c' = advance c in if at_end c' then c' else advance c')
    else if not (at_end c) && not (b == b'\'') && not (b == 0x0A) && not (b == 0x0D)
    then advance c
    else c

pub data CharScan : Type 0 where
  closed : Cursor → CharScan
  open_at : Cursor → CharScan

unfoldable pub literal_char : Cursor → CharScan
unfolding char_body
literal_char c =
    let c' = char_body (advance c) in
    if at_end c' || not (peek c'.rest 0 == b'\'') then open_at c' else closed (advance c')

-- The loop over a block comment, up to "*/".
unfoldable pub comment_in : Bytes → Cursor → Cursor
comment_in [] c = c
comment_in (b ∷ rest) c = elim (b == b'*' && peek rest 0 == b'/') [
  | true ↦ c
  | false ↦ comment_in rest (advance c)
]

-- A number's fraction, exponent and suffix; the flag is `isFloat`.
abbrev pub Part : Type 0
Part = Bool × Cursor

unfoldable pub fraction : Part → Part
fraction (f, c) =
    if peek c.rest 0 == b'.' && is_digit (peek c.rest 1)
    then (true, skip_while digit_or_under (advance c))
    else (f, c)

-- With no digit behind it the exponent is given back: `pos` and `col` are reset, `line` is not.
unfoldable pub exponent_at : Cursor → Cursor → Cursor → Part
exponent_at start c c' =
    if not (is_digit (peek c'.rest 0))
    then (
      true,
      record {
        rest = c.rest;
        pos = c.pos;
        line = c'.line;
        col = (start.col + (c.pos - start.pos)) % 2 ^ 32;
      },
    )
    else (true, skip_while digit_or_under c')

unfoldable pub sign : Cursor → Cursor
sign c = if peek c.rest 0 == b'+' || peek c.rest 0 == b'-' then advance c else c

unfoldable pub exponent : Cursor → Part → Part
unfolding exponent_at sign
exponent start (f, c) =
    if peek c.rest 0 == b'e' || peek c.rest 0 == b'E'
    then exponent_at start c (sign (advance c))
    else (f, c)

unfoldable pub suffix : Part → Part
suffix (f, c) = if peek c.rest 0 == b'f' || peek c.rest 0 == b'F' then (true, advance c) else (f, c)

unfoldable pub decimal : Cursor → Part
unfolding fraction exponent suffix
decimal c = suffix (exponent c (fraction (false, skip_while digit_or_under c)))

unfoldable pub number : Cursor → Tk × Cursor
unfolding decimal
number c =
    let b = peek c.rest 1 in
    if peek c.rest 0 == b'0' && (b == b'x' || b == b'b' || b == b'o')
    then (Tk.int_lit, skip_while xdigit_or_under (advance (advance c)))
    else let (is_float, c') = decimal c in (if is_float then Tk.float_lit else Tk.int_lit, c')

-- The `switch` on operators and punctuation, on a byte and the two behind it: the kind and how many
-- bytes it takes.
unfoldable pub operator : ℕ → ℕ → ℕ → Option (Tk × ℕ)
operator c p q =
    if c == b'+'
    then (if p == b'=' then some (Tk.plus_eq, 2) else some (Tk.plus, 1))
    else if c == b'-'
    then (if p == b'>'
        then some (Tk.arrow, 2)
        else (if p == b'=' then some (Tk.minus_eq, 2) else some (Tk.minus, 1)))
    else if c == b'*'
    then (if p == b'=' then some (Tk.star_eq, 2) else some (Tk.star, 1))
    else if c == b'/'
    then (if p == b'=' then some (Tk.slash_eq, 2) else some (Tk.slash, 1))
    else if c == b'%'
    then (if p == b'=' then some (Tk.percent_eq, 2) else some (Tk.percent, 1))
    else if c == b'&'
    then (if p == b'&'
        then some (Tk.and_and, 2)
        else (if p == b'=' then some (Tk.amp_eq, 2) else some (Tk.amp, 1)))
    else if c == b'|'
    then (if p == b'|'
        then some (Tk.or_or, 2)
        else (if p == b'=' then some (Tk.pipe_eq, 2) else some (Tk.pipe, 1)))
    else if c == b'^'
    then (if p == b'=' then some (Tk.caret_eq, 2) else some (Tk.caret, 1))
    else if c == b'~'
    then some (Tk.tilde, 1)
    else if c == b'!'
    then (if p == b'=' then some (Tk.ne, 2) else some (Tk.bang, 1))
    else if c == b'<'
    then (if p == b'<'
        then (if q == b'=' then some (Tk.shl_eq, 3) else some (Tk.shl, 2))
        else (if p == b'=' then some (Tk.le, 2) else some (Tk.lt, 1)))
    else if c == b'>'
    then (if p == b'>'
        then (if q == b'=' then some (Tk.shr_eq, 3) else some (Tk.shr, 2))
        else (if p == b'=' then some (Tk.ge, 2) else some (Tk.gt, 1)))
    else if c == b'='
    then (if p == b'='
        then some (Tk.eq_eq, 2)
        else (if p == b'>' then some (Tk.fat_arrow, 2) else some (Tk.eq, 1)))
    else if c == b'.'
    then (if p == b'.'
        then (if q == b'=' then some (Tk.dot_dot_eq, 3) else some (Tk.dot_dot, 2))
        else some (Tk.dot, 1))
    else if c == b':'
    then (if p == b':' then some (Tk.d_colon, 2) else some (Tk.colon, 1))
    else if c == b';'
    then some (Tk.semi, 1)
    else if c == b','
    then some (Tk.comma, 1)
    else if c == b'('
    then some (Tk.l_paren, 1)
    else if c == b')'
    then some (Tk.r_paren, 1)
    else if c == b'{'
    then some (Tk.l_brace, 1)
    else if c == b'}'
    then some (Tk.r_brace, 1)
    else if c == b'['
    then some (Tk.l_bracket, 1)
    else if c == b']'
    then some (Tk.r_bracket, 1)
    else if c == b'#'
    then some (Tk.pound, 1)
    else if c == b'$'
    then some (Tk.dollar, 1)
    else if c == b'@'
    then some (Tk.at, 1)
    else if c == b'?'
    then some (Tk.question, 1)
    else none
