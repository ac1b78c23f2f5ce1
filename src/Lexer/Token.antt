-- ===== src/Lexer/Token.antt =====
-- Tokens, source locations and the lexer's errors: src/cpp/v2/Token.hpp and the keyword table of
-- src/cpp/v2/frontend/Lexer.cpp.
use Prim.Native.Char.{code}
use Prim.Native.String.{String}
use loxis_programming_langua.Prelude.{
  ℕ, Bool, true, false, ◌&&◌, List, [], ◌∷◌, ◌==◌, if◌then◌else◌,
}

-- A text as its bytes; every literal is ASCII.
abbrev pub codes : String → List ℕ
codes String.[] = []
codes (String.◌∷◌ c s) = code c ∷ codes s

-- `enum class Tk`.
pub data Tk : Type 0 where
  eof ident int_lit float_lit string_lit char_lit kw_package kw_import : Tk
  kw_from kw_fun kw_let kw_var kw_val kw_class kw_interface kw_object : Tk
  kw_enum kw_open kw_abstract kw_data kw_override kw_init kw_companion kw_for : Tk
  kw_while kw_if kw_else kw_when kw_return kw_break kw_continue kw_loop : Tk
  kw_throw kw_try kw_catch kw_finally kw_true kw_false kw_null kw_is : Tk
  kw_in kw_as kw_where kw_type kw_const kw_public kw_internal kw_private : Tk
  l_paren r_paren l_brace r_brace l_bracket r_bracket comma dot : Tk
  dot_dot dot_dot_eq colon d_colon semi arrow fat_arrow pound : Tk
  dollar at plus minus star slash percent amp : Tk
  pipe caret tilde bang question lt gt le : Tk
  ge eq eq_eq ne and_and or_or shl shr : Tk
  plus_eq minus_eq star_eq slash_eq percent_eq amp_eq pipe_eq caret_eq : Tk
  shl_eq shr_eq newline underscore : Tk

-- `SourceLocation`, without the file, which the lexer only copies.
pub record SourceLocation : Type 0 where
  pub line : ℕ
  pub col : ℕ

pub record Token : Type 0 where
  pub kind : Tk
  pub lex : List ℕ
  pub loc : SourceLocation

-- The lexer's `FrontendError`s, with the start and the end of the primary span.
pub data Reason : Type 0 where
  unterminated_string unterminated_char unterminated_comment : Reason
  unexpected_character : ℕ → Reason

pub record LexError : Type 0 where
  pub reason : Reason
  pub start : SourceLocation
  pub stop : SourceLocation

unfoldable pub bytes_eq : List ℕ → List ℕ → Bool
bytes_eq [] [] = true
bytes_eq (x ∷ xs) (y ∷ ys) = x == y && bytes_eq xs ys
bytes_eq _ _ = false

-- The table of `Lexer::keyword`.
abbrev pub keywords : List (List ℕ × Tk)
keywords =
    (codes "package", Tk.kw_package)
    ∷ (codes "import", Tk.kw_import)
    ∷ (codes "from", Tk.kw_from)
    ∷ (codes "fun", Tk.kw_fun)
    ∷ (codes "let", Tk.kw_let)
    ∷ (codes "var", Tk.kw_var)
    ∷ (codes "val", Tk.kw_val)
    ∷ (codes "class", Tk.kw_class)
    ∷ (codes "interface", Tk.kw_interface)
    ∷ (codes "object", Tk.kw_object)
    ∷ (codes "enum", Tk.kw_enum)
    ∷ (codes "open", Tk.kw_open)
    ∷ (codes "abstract", Tk.kw_abstract)
    ∷ (codes "data", Tk.kw_data)
    ∷ (codes "override", Tk.kw_override)
    ∷ (codes "init", Tk.kw_init)
    ∷ (codes "companion", Tk.kw_companion)
    ∷ (codes "for", Tk.kw_for)
    ∷ (codes "while", Tk.kw_while)
    ∷ (codes "if", Tk.kw_if)
    ∷ (codes "else", Tk.kw_else)
    ∷ (codes "when", Tk.kw_when)
    ∷ (codes "return", Tk.kw_return)
    ∷ (codes "break", Tk.kw_break)
    ∷ (codes "continue", Tk.kw_continue)
    ∷ (codes "loop", Tk.kw_loop)
    ∷ (codes "throw", Tk.kw_throw)
    ∷ (codes "try", Tk.kw_try)
    ∷ (codes "catch", Tk.kw_catch)
    ∷ (codes "finally", Tk.kw_finally)
    ∷ (codes "true", Tk.kw_true)
    ∷ (codes "false", Tk.kw_false)
    ∷ (codes "null", Tk.kw_null)
    ∷ (codes "is", Tk.kw_is)
    ∷ (codes "in", Tk.kw_in)
    ∷ (codes "as", Tk.kw_as)
    ∷ (codes "where", Tk.kw_where)
    ∷ (codes "type", Tk.kw_type)
    ∷ (codes "const", Tk.kw_const)
    ∷ (codes "public", Tk.kw_public)
    ∷ (codes "internal", Tk.kw_internal)
    ∷ (codes "private", Tk.kw_private)
    ∷ []

-- `kw.find(s)`; the words of the table differ.
unfoldable pub find : List (List ℕ × Tk) → List ℕ → Tk
find [] s = Tk.ident
find ((word, kind) ∷ table) s = if bytes_eq s word then kind else find table s

-- `Lexer::keyword`.
unfoldable pub keyword : List ℕ → Tk
unfolding find
keyword s = find keywords s
