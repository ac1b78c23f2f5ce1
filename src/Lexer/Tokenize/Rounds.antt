-- ===== src/Lexer/Tokenize/Rounds.antt =====
-- One round of `tokenize`, branch by branch.
use loxis_programming_langua.Prelude.{
  ℕ, zero, suc, ◌≤◌, ◌<◌, Bool, true, false, not, ◌&&◌, ◌||◌, List, [], ◌∷◌, Option, none, some,
  ◌==◌, if◌then◌else◌, length, take, drop, get_or, arith, ◌≡◌, ◌≢◌, refl, sym, ap, subst, ◌∙◌,
  Bool-cases, ◌⊎◌, inl, inr, length-drop,
}
use loxis_programming_langua.Lexer.Token.{
  Tk, Token, keyword, keywords, find, bytes_eq, LexError, unterminated_string, unterminated_char,
  unterminated_comment, unexpected_character,
}
use loxis_programming_langua.Lexer.Cursor.{
  Bytes, Cursor, advance, advances, loc, skip_while, text_between, peek, incr, is_line_end,
  is_digit, is_id_start, is_id_cont, is_alpha,
}
use loxis_programming_langua.Lexer.Scan.{
  literal_str, literal_char, CharScan, closed, open_at, comment_in, number, operator,
}
use loxis_programming_langua.Lexer.Tokenize.{
  Round, skipped, emitted, failed, ended, newline_round, line_comment_round, block_comment_round,
  block_comment_end, word_round, number_round, string_round, string_result, char_round, char_result,
  operator_round, operator_result, byte_round, run_out,
}
use loxis_programming_langua.Lexer.Tokenize.Reads.{
  Reads, rest-advance, Reads-trans, Reads-advance, Reads-skip_in, Small, length-advance,
  length-Reads, text_between-Reads, rest-advances,
}
use loxis_programming_langua.Lexer.Tokenize.Scans.{
  Moves, Moves-Reads, Moves-advance, ReadsTo, literal_str-ReadsTo, comment_in-Reads, CharReads,
  literal_char-CharReads, Reads-advance_twice, skip_step, run_out-Reads, run_out_end,
  comment_in_open,
}
use loxis_programming_langua.Lexer.Tokenize.Numbers.{number-Moves}
use loxis_programming_langua.Lexer.Tokenize.Blank.{
  Place, Blank, line_comment-Blank, block_comment-Blank,
}

-- A line break of `n` bytes.
abbrev pub IsBreak : ℕ → Bytes → Type 0
IsBreak n rest =
    ((n ≡ 1) × (is_line_end (get_or rest 0 0) ≡ true))
    ⊎ ((n ≡ 2) × (get_or rest 0 0 ≡ 0x0D) × (get_or rest 1 0 ≡ 0x0A))

-- The text of a token of `n` bytes: these bytes, or for a line break of any form, "\n".
abbrev pub IsText : ℕ → Bytes → Token → Type 0
IsText n rest t =
    (t.lex ≡ take n rest) ⊎ ((t.kind ≡ Tk.newline) × (t.lex ≡ 0x0A ∷ []) × IsBreak n rest)

-- A token that was read from `c` on and ends at `d`.
pub record IsLexed (c : Cursor) (t : Token) (d : Cursor) : Type 0 where
  pub reads : Reads c d
  pub shorter : length d.rest < length c.rest
  pub at : t.loc ≡ loc c
  pub not_eof : t.kind ≢ Tk.eof
  pub text : IsText reads.0 c.rest t

-- The error of a round that begins at `c`, told by the bytes there: a string or a block comment without an end,
-- a character without its quote, or a byte that begins no token. The first two reach to the end of the source,
-- the third to where the quote is missing, the last over one byte.
pub data IsError : Cursor → LexError → Type 0 where
  no_string_end :
      {c d : Cursor}
      → peek c.rest 0 ≡ 0x22
      → literal_str c ≡ none
      → Reads c d
      → d.rest ≡ []
      → IsError c (record { reason = unterminated_string; start = loc c; stop = loc d })
  no_comment_end :
      {c d : Cursor}
      → peek c.rest 0 ≡ b'/'
      → peek c.rest 1 ≡ b'*'
      → ((k : ℕ)
          → (peek c.rest (suc (suc k)) == b'*' && peek c.rest (suc (suc (suc k))) == b'/') ≡ false)
      → Reads c d
      → d.rest ≡ []
      → IsError c (record { reason = unterminated_comment; start = loc c; stop = loc d })
  no_char_quote :
      {c d : Cursor}
      → peek c.rest 0 ≡ b'\''
      → literal_char c ≡ open_at d
      → Reads c d
      → (peek d.rest 0 == b'\'') ≡ false
      → IsError c (record { reason = unterminated_char; start = loc c; stop = loc d })
  no_token :
      {c : Cursor} {b : ℕ} {xs : Bytes}
      → c.rest ≡ b ∷ xs
      → operator b (peek c.rest 1) (peek c.rest 2) ≡ none
      → IsError c (record {
        reason = unexpected_character b;
        start = loc c;
        stop = record { line = c.line; col = incr c.col };
      })

-- What a round does from the first byte that is no space.
abbrev pub IsRound : Cursor → Round → Type 0
IsRound c (skipped d) = Blank Place.code c d × Moves c d
IsRound c (emitted t d) = IsLexed c t d
IsRound c (failed e) = IsError c e
IsRound c (ended d) = ⊥

IsRound-if :
    (t : Bool) (c : Cursor) (p q : Round)
    → (t ≡ true → IsRound c p)
    → (t ≡ false → IsRound c q)
    → IsRound c (if t then p else q)
IsRound-if true c p q f g = f refl
IsRound-if false c p q f g = g refl

token-IsLexed :
    (k : Tk) (c d : Cursor)
    → Moves c d
    → k ≢ Tk.eof
    → IsLexed c (record { kind = k; lex = text_between c d; loc = loc c }) d
token-IsLexed k c d (r, lt) ne = record {
  not_eof = ne;
  reads = r;
  shorter = lt;
  at = refl;
  text = inl (text_between-Reads c d r);
}

abbrev is_eof : Tk → Bool
is_eof Tk.eof = true
is_eof _ = false

abbrev no_eof : List (Bytes × Tk) → Bool
no_eof [] = true
no_eof ((word, kind) ∷ table) = not (is_eof kind) && no_eof table

find-is_eof :
    (table : List (Bytes × Tk)) (s : Bytes) → no_eof table ≡ true → is_eof (find table s) ≡ false
unfolding find
find-is_eof [] s h = refl
find-is_eof ((word, kind) ∷ table) s h = elim (Bool-cases (bytes_eq s word)) [
  | inl y ↦ rw y (ground (arith, h))
  | inr y ↦ rw y (find-is_eof table s (ground (arith, h)))
]

keyword-ne-eof : (s : Bytes) → keyword s ≢ Tk.eof
unfolding keyword
keyword-ne-eof s h = absurd (true-ne-false (sym (ap is_eof h) ∙ find-is_eof keywords s refl))
  where
    true-ne-false : (true ≡ false) → ⊥
    true-ne-false = λ z. cc

word_kind : (s : Bytes) → (if bytes_eq s (b'_' ∷ []) then Tk.underscore else keyword s) ≢ Tk.eof
word_kind s h = ground (arith, keyword-ne-eof s)

number_kind : (c : Cursor) → (number c).0 ≢ Tk.eof
unfolding number
number_kind c h = ground arith

peek_tail : (xs : Bytes) (k : ℕ) → peek (drop 1 xs) k ≡ peek xs (suc k)
peek_tail [] k = refl
peek_tail (x ∷ xs) k = refl

module _ (c : Cursor) (b : ℕ) (xs : Bytes) (e : c.rest ≡ b ∷ xs) where
  first : peek c.rest 0 ≡ b
  first = ap (λ (l : Bytes). peek l 0) e

  second : peek c.rest 1 ≡ peek xs 0
  second = ap (λ (l : Bytes). peek l 1) e

  past : {d : Cursor} → Reads (advance c) d → Moves c d
  past {d = d} r = Moves-Reads c (advance c) d (Moves-advance c e) r

  line_comment_round-IsRound : b ≡ b'/' → peek xs 0 ≡ b'/' → IsRound c (line_comment_round c)
  unfolding line_comment_round
  line_comment_round-IsRound h h' = (
    line_comment-Blank c (first ∙ h) (second ∙ h'),
    past (
        Reads-trans (advance c) _ _ (Reads-advance (advance c))
          (Reads-skip_in _ _ (advance (advance c)) refl)),
  )

  block_comment_round-IsRound : b ≡ b'/' → peek xs 0 ≡ b'*' → IsRound c (block_comment_round c)
  unfolding block_comment_round block_comment_end
  block_comment_round-IsRound h h' = go _ refl _ refl
    where
      behind : (k : ℕ) → peek (advance (advance c)).rest k ≡ peek c.rest (suc (suc k))
      behind k =
          ap (λ (l : Bytes). peek l k) (rest-advance (advance c) (rest-advance c e))
          ∙ peek_tail xs k
          ∙ sym (ap (λ (l : Bytes). peek l (suc (suc k))) e)

      two_on :
          (k : ℕ)
          → (peek (advance (advance c)).rest k == b'*'
              && peek (advance (advance c)).rest (suc k) == b'/')
            ≡ false
          → (peek c.rest (suc (suc k)) == b'*' && peek c.rest (suc (suc (suc k))) == b'/') ≡ false
      two_on k f = ground (arith, f, behind k, behind (suc k))

      go :
          (d : Cursor)
          → comment_in (advance (advance c)).rest (advance (advance c)) ≡ d
          → (ys : Bytes) → d.rest ≡ ys
          → IsRound c (block_comment_end c ys d)
      go d p [] q =
          no_comment_end {c = c} {d = d} (first ∙ h) (second ∙ h')
            (λ k.
              two_on k (
                comment_in_open _ (advance (advance c)) k refl (ap (λ (x : Cursor). x.rest) p ∙ q)))
            (Reads-trans c _ d (Reads-advance_twice c) (
              subst (Reads (advance (advance c))) p
                (comment_in-Reads _ (advance (advance c)) refl)))
            q
      go d p (y ∷ ys) q = (
        elim (block_comment-Blank c d (first ∙ h) (second ∙ h') p) [
          | inl z ↦ absurd (nonempty (sym q ∙ z))
          | inr z ↦ z
        ],
        past (
            Reads-trans (advance c) _ _ (Reads-advance (advance c)) (
              Reads-trans (advance (advance c)) d _
                (subst (Reads (advance (advance c))) p
                  (comment_in-Reads _ (advance (advance c)) refl))
                (Reads-advance_twice d))),
      )
        where
          nonempty : (y ∷ ys ≡ []) → ⊥
          nonempty = λ z. cc

  word_round-IsRound : is_id_start b ≡ true → IsRound c (word_round c)
  unfolding word_round is_id_start is_id_cont is_alpha
  word_round-IsRound h =
      token-IsLexed _ c _
        (subst (Moves c) (sym (skip_step is_id_cont c.rest c b xs e goes_on))
          (past (Reads-skip_in is_id_cont xs (advance c) (rest-advance c e))))
        (word_kind (text_between c (skip_while is_id_cont c)))
    where
      goes_on : is_id_cont b ≡ true
      goes_on = ground (arith, h)

  number_round-IsRound :
      Small c
      → (is_digit b || (b == b'.' && is_digit (peek xs 0))) ≡ true
      → IsRound c (number_round c)
  unfolding number_round
  number_round-IsRound small h =
      token-IsLexed (number c).0 c (number c).1 (number-Moves c b xs small e h) (number_kind c)

  string_round-IsRound : b ≡ 0x22 → IsRound c (string_round c)
  unfolding string_round string_result
  string_round-IsRound h = go (literal_str c) refl (literal_str-ReadsTo c)
    where
      go :
          (o : Option Cursor)
          → literal_str c ≡ o
          → ReadsTo (advance c) o
          → IsRound c (string_result c o)
      go none q r =
          no_string_end {c = c} {d = run_out c.rest c} (first ∙ h) q (run_out-Reads c.rest c refl)
            (run_out_end c.rest c refl)
      go (some d) q r = token-IsLexed Tk.string_lit c d (past r) (λ z. cc)

  char_round-IsRound : b ≡ b'\'' → IsRound c (char_round c)
  unfolding char_round char_result
  char_round-IsRound h = go (literal_char c) refl (literal_char-CharReads c)
    where
      go :
          (o : CharScan)
          → literal_char c ≡ o
          → CharReads (advance c) o
          → IsRound c (char_result c o)
      go (open_at d) q r =
          no_char_quote {c = c} {d = d} (first ∙ h) q
            (Reads-trans c (advance c) d (Reads-advance c) r.0) r.1
      go (closed d) q r = token-IsLexed Tk.char_lit c d (past r) (λ z. cc)

get_or_inside : (k : ℕ) (xs : Bytes) → 0 < get_or xs k 0 → k < length xs
get_or_inside k [] h = absurd (omega arith)
get_or_inside zero (x ∷ xs) h = omega arith
get_or_inside (suc k) (x ∷ xs) h = omega (arith, get_or_inside k xs h)

newline_round-IsRound :
    (c : Cursor) (b : ℕ) (xs : Bytes)
    → c.rest ≡ b ∷ xs
    → is_line_end b ≡ true
    → IsRound c (newline_round c)
unfolding newline_round advances
newline_round-IsRound c b xs e h =
    elim (Bool-cases (peek c.rest 0 == 0x0D && peek (advance c).rest 0 == 0x0A)) [
      | inl y ↦ rw y (record {
        reads = (2, two y, refl);
        shorter = omega (arith, length-advance c e, length-Reads _ _ (Reads-advance (advance c)));
        at = refl;
        not_eof = λ z. cc;
        text = inr (refl, refl, inr (refl, ground (arith, y), ground (arith, y, next)));
      })
      | inr y ↦ rw y (record {
        reads = (1, omega (arith, ap length e), refl);
        shorter = length-advance c e;
        at = refl;
        not_eof = λ z. cc;
        text = inr (refl, refl, inl (refl, ap (λ (l : Bytes). is_line_end (peek l 0)) e ∙ h));
      })
    ]
  where
    next : peek (advance c).rest 0 ≡ peek c.rest 1
    next = ap (λ (l : Bytes). peek l 0) (rest-advance c e) ∙ sym (ap (λ (l : Bytes). peek l 1) e)

    two : (peek c.rest 0 == 0x0D && peek (advance c).rest 0 == 0x0A) ≡ true → 1 < length c.rest
    two y = get_or_inside 1 c.rest (ground (arith, y, next))

-- An operator has one to three bytes, all of them in the source.
abbrev OperatorFits : ℕ → ℕ → Option (Tk × ℕ) → Type 0
OperatorFits p q none = Unit
OperatorFits p q (some (k, n)) =
    (k ≢ Tk.eof) × ((n ≡ 1) ⊎ (((n ≡ 2) × (0 < p)) ⊎ ((n ≡ 3) × (0 < p) × (0 < q))))

operator-OperatorFits : (b p q : ℕ) → OperatorFits p q (operator b p q)
unfolding operator
operator-OperatorFits b p q = ground arith

operator_round-IsRound :
    (c : Cursor) (b : ℕ) (xs : Bytes) → c.rest ≡ b ∷ xs → IsRound c (operator_round c b)
unfolding operator_round operator_result
operator_round-IsRound c b xs e =
    go _ refl (operator-OperatorFits b (peek c.rest 1) (peek c.rest 2))
  where
    go :
        (o : Option (Tk × ℕ))
        → operator b (peek c.rest 1) (peek c.rest 2) ≡ o
        → OperatorFits (peek c.rest 1) (peek c.rest 2) o
        → IsRound c (operator_result c b o)
    go none q f = no_token {c = c} {b = b} {xs = xs} e q
    go (some (k, n)) q (ne, f) = record {
      reads = (n, inside, refl);
      shorter = rw (rest-advances n c) (omega (arith, length-drop n c.rest, inside, positive));
      at = refl;
      not_eof = ne;
      text = inl refl;
    }
      where
        inside : n ≤ length c.rest
        inside = ground (arith, f, ap length e, get_or_inside 1 c.rest, get_or_inside 2 c.rest)

        positive : 0 < n
        positive = ground (arith, f)

-- Every branch of a round, at a byte that is no space.
pub byte_round-IsRound :
    (c : Cursor) (b : ℕ) (xs : Bytes) → Small c → c.rest ≡ b ∷ xs → IsRound c (byte_round b c)
unfolding byte_round
byte_round-IsRound c b xs small e =
    IsRound-if (is_line_end b) c _ _ (newline_round-IsRound c b xs e) (λ _.
      IsRound-if (b == b'/' && peek c.rest 1 == b'/') c _ _
        (λ t.
          line_comment_round-IsRound c b xs e (ground (arith, t))
            (ground (arith, t, second c b xs e)))
        (λ _.
          IsRound-if (b == b'/' && peek c.rest 1 == b'*') c _ _
            (λ t.
              block_comment_round-IsRound c b xs e (ground (arith, t))
                (ground (arith, t, second c b xs e)))
            (λ _. IsRound-if (is_id_start b) c _ _ (word_round-IsRound c b xs e) (λ _.
              IsRound-if (is_digit b || (b == b'.' && is_digit (peek c.rest 1))) c _ _
                (λ t. number_round-IsRound c b xs e small (rw (second c b xs e) at t))
                (λ _.
                  IsRound-if (b == 0x22) c _ _
                    (λ t. string_round-IsRound c b xs e (ground (arith, t)))
                    (λ _.
                      IsRound-if (b == b'\'') c _ _
                        (λ t. char_round-IsRound c b xs e (ground (arith, t)))
                        (λ _. operator_round-IsRound c b xs e)))))))
