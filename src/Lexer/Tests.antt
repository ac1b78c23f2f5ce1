-- ===== src/Lexer/Tests.antt =====
-- Small sources and their tokens.
use loxis_programming_langua.Prelude.{ℕ, List, [], ◌∷◌, ◌≡◌, ◌≢◌, refl, arith}
use loxis_programming_langua.Lexer.Token.{
  Tk, Token, SourceLocation, LexError, codes, find, keyword, bytes_eq, unterminated_string,
}
use loxis_programming_langua.Lexer.Cursor.{
  Bytes, advance, advances, skip_in, skip_space, is_space, is_digit, is_alpha, is_id_start,
  is_id_cont, is_line_end, digit_or_under,
}
use loxis_programming_langua.Lexer.Scan.{
  fraction, exponent_at, sign, exponent, suffix, decimal, number, operator,
}
use loxis_programming_langua.Lexer.Tokenize.{
  newline_round, line_comment_round, word_round, number_round, operator_round, byte_round, round,
  tokens, out_of_fuel, tokenize_from, skip_bom, start_cursor, tokenize,
}
use loxis_programming_langua.Lexer.Tokenize.Lossless.{
  IsTokens, begin, tokenize-IsTokens, tokenize-ne-out_of_fuel,
}

abbrev origin : SourceLocation
origin = record { line = 0; col = 0 }

-- `a <<= 7e; // x` and a line break, where the exponent has no digits.
abbrev source : Bytes
source = codes "a <<= 7e; // x\n"

abbrev at_col : Tk → Bytes → ℕ → ℕ → Token
at_col k lex line col = record { kind = k; lex = lex; loc = record { line = line; col = col } }

abbrev expected : List Token
expected =
    at_col Tk.ident (codes "a") 1 1
    ∷ at_col Tk.shl_eq (codes "<<=") 1 3
    ∷ at_col Tk.float_lit (codes "7") 1 7
    ∷ at_col Tk.ident (codes "e") 1 8
    ∷ at_col Tk.semi (codes ";") 1 9
    ∷ at_col Tk.newline (codes "\n") 1 15
    ∷ at_col Tk.eof [] 2 1
    ∷ []

source_tokens : tokenize source origin ≡ tokens expected
unfolding tokenize tokenize_from start_cursor skip_bom round byte_round skip_space skip_in advance
    is_space is_line_end is_id_start is_alpha is_digit is_id_cont word_round keyword find
    operator_round operator number_round number decimal fraction exponent exponent_at sign suffix
    digit_or_under line_comment_round newline_round advances bytes_eq
source_tokens = refl

tokenize-IsTokens_example : IsTokens (begin source origin) expected
tokenize-IsTokens_example = tokenize-IsTokens source origin expected (omega arith) source_tokens

tokenize-ne-out_of_fuel_example : tokenize source origin ≢ out_of_fuel
tokenize-ne-out_of_fuel_example = tokenize-ne-out_of_fuel source origin (omega arith)

-- A string that is not closed, after one that holds code with a brace and a quote.
abbrev broken : Bytes
broken = codes "\"${f(\"}\")}\" \"x"

abbrev failure : LexError
failure = record {
  reason = unterminated_string;
  start = record { line = 1; col = 13 };
  stop = record { line = 1; col = 15 };
}
