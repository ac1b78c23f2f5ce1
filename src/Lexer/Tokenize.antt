-- ===== src/Lexer/Tokenize.antt =====
-- `Lexer::tokenize` of src/cpp/v2/frontend/Lexer.cpp.
pub mod Lossless
pub mod Rounds
pub mod Blank
pub mod Numbers
pub mod Scans
pub mod Reads
use loxis_programming_langua.Prelude.{
  ℕ, zero, suc, not, ◌&&◌, ◌||◌, List, [], ◌∷◌, Option, none, some, ◌==◌, if◌then◌else◌, length,
  take,
}
use loxis_programming_langua.Lexer.Token.{
  Tk, Token, SourceLocation, keyword, bytes_eq, LexError, unterminated_string, unterminated_char,
  unterminated_comment, unexpected_character,
}
use loxis_programming_langua.Lexer.Cursor.{
  Bytes, Cursor, peek, advance, advances, incr, loc, skip_while, skip_space, text_between, is_digit,
  is_id_start, is_id_cont, is_line_end,
}
use loxis_programming_langua.Lexer.Scan.{
  literal_str, CharScan, literal_char, closed, open_at, comment_in, number, operator,
}

-- One round of the loop of `tokenize`: nothing but space and comments was read, a token was, an error
-- was thrown, or the source is at its end.
pub data Round : Type 0 where
  skipped : Cursor → Round
  emitted : Token → Cursor → Round
  failed : LexError → Round
  ended : Cursor → Round

-- Where the scanner of an unterminated literal stops: at the end of the source.
unfoldable pub run_out : Bytes → Cursor → Cursor
run_out [] c = c
run_out (b ∷ rest) c = run_out rest (advance c)

abbrev token_to : Tk → Cursor → Cursor → Round
token_to k start c = emitted (record { kind = k; lex = text_between start c; loc = loc start }) c

unfoldable pub newline_round : Cursor → Round
newline_round c =
    let c' = advance c in
    let c'' = if peek c.rest 0 == 0x0D && peek c'.rest 0 == 0x0A then advance c' else c' in
    emitted (record { kind = Tk.newline; lex = 0x0A ∷ []; loc = loc c }) c''

unfoldable pub line_comment_round : Cursor → Round
line_comment_round c = skipped (skip_while (λ b. not (is_line_end b)) (advance (advance c)))

block_comment_end : Cursor → Bytes → Cursor → Round
block_comment_end start [] c =
    failed (record { reason = unterminated_comment; start = loc start; stop = loc c })
block_comment_end start (_ ∷ _) c = skipped (advance (advance c))

unfoldable pub block_comment_round : Cursor → Round
unfolding block_comment_end
block_comment_round c =
    let inside = advance (advance c) in
    let c' = comment_in inside.rest inside in block_comment_end c c'.rest c'

unfoldable pub word_round : Cursor → Round
word_round c =
    let c' = skip_while is_id_cont c in
    let lex = text_between c c' in
    token_to (if bytes_eq lex (b'_' ∷ []) then Tk.underscore else keyword lex) c c'

unfoldable pub number_round : Cursor → Round
number_round c = let (k, c') = number c in token_to k c c'

string_result : Cursor → Option Cursor → Round
string_result c none =
    failed (record { reason = unterminated_string; start = loc c; stop = loc (run_out c.rest c) })
string_result c (some c') = token_to Tk.string_lit c c'

unfoldable pub string_round : Cursor → Round
unfolding string_result
string_round c = string_result c (literal_str c)

char_result : Cursor → CharScan → Round
char_result c (closed c') = token_to Tk.char_lit c c'
char_result c (open_at c') =
    failed (record { reason = unterminated_char; start = loc c; stop = loc c' })

unfoldable pub char_round : Cursor → Round
unfolding char_result
char_round c = char_result c (literal_char c)

operator_result : Cursor → ℕ → Option (Tk × ℕ) → Round
operator_result c b none = failed (record {
  reason = unexpected_character b;
  start = loc c;
  stop = record { line = c.line; col = incr c.col };
})
operator_result c b (some (k, n)) =
    emitted (record { kind = k; lex = take n c.rest; loc = loc c }) (advances n c)

unfoldable pub operator_round : Cursor → ℕ → Round
unfolding operator_result
operator_round c b = operator_result c b (operator b (peek c.rest 1) (peek c.rest 2))

-- The tests of the loop in their order, at a byte that is no space.
unfoldable pub byte_round : ℕ → Cursor → Round
byte_round b c =
    let p = peek c.rest 1 in
    if is_line_end b
    then newline_round c
    else if b == b'/' && p == b'/'
    then line_comment_round c
    else if b == b'/' && p == b'*'
    then block_comment_round c
    else if is_id_start b
    then word_round c
    else if is_digit b || (b == b'.' && is_digit p)
    then number_round c
    else if b == 0x22
    then string_round c
    else if b == b'\''
    then char_round c
    else operator_round c b

round_at : Bytes → Cursor → Round
round_at [] c = ended c
round_at (b ∷ _) c = byte_round b c

unfoldable pub round : Cursor → Round
unfolding round_at
round c = let c' = skip_space c in round_at c'.rest c'

pub data Outcome : Type 0 where
  tokens : List Token → Outcome
  error : LexError → Outcome
  out_of_fuel : Outcome

abbrev pub cons_token : Token → Outcome → Outcome
cons_token t (tokens ts) = tokens (t ∷ ts)
cons_token t (error e) = error e
cons_token t out_of_fuel = out_of_fuel

-- The token behind the loop.
abbrev eof : Cursor → Token
eof c = record { kind = Tk.eof; lex = []; loc = loc c }

-- The loop of `tokenize`, a unit of fuel for a round.
unfoldable pub tokenize_from : ℕ → Cursor → Outcome
tokenize_from zero c = out_of_fuel
tokenize_from (suc fuel) c = elim (round c) [
  | skipped c' ↦ tokenize_from fuel c'
  | emitted t c' ↦ cons_token t (tokenize_from fuel c')
  | failed e ↦ error e
  | ended c' ↦ tokens (eof c' ∷ [])
]

-- The byte order mark, three bytes that are skipped at the start.
unfoldable pub skip_bom : Cursor → Cursor
skip_bom c =
    if peek c.rest 0 == 0xEF && peek c.rest 1 == 0xBB && peek c.rest 2 == 0xBF
    then advance (advance (advance c))
    else c

-- `Lexer(source, filename, start)`: a start line of 0 means 1:1.
unfoldable pub start_cursor : Bytes → SourceLocation → Cursor
start_cursor src start =
    if start.line == 0
    then record { rest = src; pos = 0; line = 1; col = 1 }
    else record { rest = src; pos = 0; line = start.line; col = start.col }

-- `Lexer::tokenize`: each round but the last reads a byte, so one more than their number is enough.
unfoldable pub tokenize : Bytes → SourceLocation → Outcome
unfolding skip_bom
tokenize src start = tokenize_from (suc (length src)) (skip_bom (start_cursor src start))
