-- ===== src/Lexer/Cursor.antt =====
-- The lexer's position in the source and the ways to move it (src/cpp/v2/frontend/Lexer.cpp). What is
-- left of the source stands for `src` from `pos` on, so `atEnd()` is an empty rest.
use loxis_programming_langua.Prelude.{
  ℕ, zero, suc, ◌+◌, ◌-◌, ◌^◌, ◌%◌, Bool, true, false, not, ◌&&◌, ◌||◌, List, [], ◌∷◌, leb, ◌==◌,
  if◌then◌else◌, get_or, take,
}
use loxis_programming_langua.Lexer.Token.{SourceLocation}

abbrev pub Bytes : Type 0
Bytes = List ℕ

pub record Cursor : Type 0 where
  pub rest : Bytes
  pub pos : ℕ
  pub line : ℕ
  pub col : ℕ

-- `uint32_t` counters.
abbrev pub incr : ℕ → ℕ
incr n = (n + 1) % 2 ^ 32

-- `Lexer::peek`: NUL behind the end.
abbrev pub peek : Bytes → ℕ → ℕ
peek rest off = get_or rest off 0

-- `Lexer::advance` ends a line at "\n", and at "\r" unless "\n" follows. It is never called at the end.
advance_over : ℕ → Bytes → Cursor → Cursor
advance_over b rest c =
    if b == 0x0A || (b == 0x0D && not (peek rest 0 == 0x0A))
    then record { rest = rest; pos = c.pos + 1; line = incr c.line; col = 1 }
    else record { rest = rest; pos = c.pos + 1; line = c.line; col = incr c.col }

advance_in : Bytes → Cursor → Cursor
advance_in [] c = c
advance_in (b ∷ rest) c = advance_over b rest c

unfoldable pub advance : Cursor → Cursor
unfolding advance_in advance_over
advance c = advance_in c.rest c

-- `n` calls of `advance`, as in `emit1`, `emit2` and `emit3`.
unfoldable pub advances : ℕ → Cursor → Cursor
advances zero c = c
advances (suc n) c = advances n (advance c)

-- `Lexer::loc`.
abbrev pub loc : Cursor → SourceLocation
loc c = record { line = c.line; col = c.col }

-- `while (!atEnd() && p(peek())) advance();`, on what is left.
unfoldable pub skip_in : (ℕ → Bool) → Bytes → Cursor → Cursor
skip_in p [] c = c
skip_in p (b ∷ rest) c = elim (p b) [ true ↦ skip_in p rest (advance c) | false ↦ c ]

abbrev pub skip_while : (ℕ → Bool) → Cursor → Cursor
skip_while p c = skip_in p c.rest c

-- `src.substr(start, pos - start)`.
abbrev pub text_between : Cursor → Cursor → Bytes
text_between start c = take (c.pos - start.pos) start.rest

-- The character classes of the C locale.
abbrev pub between : ℕ → ℕ → ℕ → Bool
between lo hi c = leb lo c && leb c hi

unfoldable pub is_digit : ℕ → Bool
is_digit c = between b'0' b'9' c

unfoldable pub is_alpha : ℕ → Bool
is_alpha c = between b'a' b'z' c || between b'A' b'Z' c

unfoldable pub is_xdigit : ℕ → Bool
unfolding is_digit
is_xdigit c = is_digit c || between b'a' b'f' c || between b'A' b'F' c

-- `Lexer::isIdStart`, `Lexer::isIdCont`, and the tests of `tokenize`'s loops.
unfoldable pub is_id_start : ℕ → Bool
unfolding is_alpha
is_id_start c = c == b'_' || is_alpha c

unfoldable pub is_id_cont : ℕ → Bool
unfolding is_alpha is_digit
is_id_cont c = c == b'_' || is_alpha c || is_digit c

unfoldable pub is_space : ℕ → Bool
is_space c = c == b' ' || c == 0x09

unfoldable pub is_line_end : ℕ → Bool
is_line_end c = c == 0x0A || c == 0x0D

unfoldable pub digit_or_under : ℕ → Bool
unfolding is_digit
digit_or_under c = is_digit c || c == b'_'

unfoldable pub xdigit_or_under : ℕ → Bool
unfolding is_xdigit
xdigit_or_under c = is_xdigit c || c == b'_'

-- `Lexer::skipSpace`.
unfoldable pub skip_space : Cursor → Cursor
unfolding skip_in is_space
skip_space c = skip_while is_space c
