-- ===== src/Lexer/Tokenize/Lossless.antt =====
-- The tokens of `tokenize` and the source: every byte is in a token or in blank space, and every token
-- stands where its location says.
use loxis_programming_langua.Prelude.{
  ℕ, zero, suc, ◌^◌, ◌≤◌, ◌<◌, Bool, List, [], ◌∷◌, ◌==◌, length, arith, ◌≡◌, ◌≢◌, refl, sym, ap,
  subst, inl, inr, Bool-cases, ◌&&◌,
}
use loxis_programming_langua.Lexer.Token.{Tk, Token, SourceLocation, LexError}
use loxis_programming_langua.Lexer.Cursor.{
  Bytes, Cursor, advance, advances, loc, peek, skip_space, is_space,
}
use loxis_programming_langua.Lexer.Tokenize.{
  Round, skipped, emitted, failed, ended, byte_round, round, round_at, Outcome, tokens, error,
  out_of_fuel, cons_token, eof, tokenize_from, skip_bom, start_cursor, tokenize,
}
use loxis_programming_langua.Lexer.Tokenize.Reads.{
  Reads, Reads-refl, Reads-trans, Reads-advance, Reads-skip_in, Small, Small-Reads, length-Reads,
}
use loxis_programming_langua.Lexer.Tokenize.Blank.{Place, Blank, Blank-trans, skip_space-Blank}
use loxis_programming_langua.Lexer.Tokenize.Rounds.{
  IsText, IsLexed, IsError, IsRound, byte_round-IsRound,
}

-- The tokens of the source from `c` on. Before each there is only blank space; it takes `n` bytes from
-- its location on; the end-of-file token stands at the end, and nowhere else.
pub data IsTokens : Cursor → List Token → Type 0 where
  at_end : {c d : Cursor} → Blank Place.code c d → d.rest ≡ [] → IsTokens c (eof d ∷ [])
  token :
      {c d : Cursor} {t : Token} {ts : List Token}
      → Blank Place.code c d
      → (n : ℕ) → 0 < n
      → n ≤ length d.rest
      → t.loc ≡ loc d
      → t.kind ≢ Tk.eof
      → IsText n d.rest t
      → IsTokens (advances n d) ts
      → IsTokens c (t ∷ ts)

-- An error of the source from `c` on: before it there are whole tokens and blank space, and then the bytes
-- that tell it.
pub data IsFailure : Cursor → LexError → Type 0 where
  here : {c d : Cursor} {e : LexError} → Blank Place.code c d → IsError d e → IsFailure c e
  behind :
      {c d f : Cursor} {t : Token} {e : LexError}
      → Blank Place.code c d
      → IsLexed d t f
      → IsFailure f e
      → IsFailure c e

IsFailure-Blank :
    (c d : Cursor) (e : LexError) → Blank Place.code c d → IsFailure d e → IsFailure c e
IsFailure-Blank c d e b (here b' x) = here (Blank-trans Place.code c d _ b b') x
IsFailure-Blank c d e b (behind b' x r) = behind (Blank-trans Place.code c d _ b b') x r

IsTokens-Blank :
    (c d : Cursor) (ts : List Token) → Blank Place.code c d → IsTokens d ts → IsTokens c ts
IsTokens-Blank c d ts b (at_end b' e) = at_end (Blank-trans Place.code c d _ b b') e
IsTokens-Blank c d ts b (token b' n p q l k x r) =
    token (Blank-trans Place.code c d _ b b') n p q l k x r

-- The outcomes that a run from `c` may have.
abbrev IsOutcome : Cursor → Outcome → Type 0
IsOutcome c (tokens ts) = IsTokens c ts
IsOutcome c (error e) = IsFailure c e
IsOutcome c out_of_fuel = ⊥

skip_space-Reads : (c : Cursor) → Reads c (skip_space c)
unfolding skip_space
skip_space-Reads c = Reads-skip_in is_space c.rest c refl

-- A round from `c`, the space before it included.
abbrev RoundFrom : Cursor → Round → Type 0
RoundFrom c (ended d) = (d ≡ skip_space c) × (d.rest ≡ [])
RoundFrom c r = IsRound (skip_space c) r

round-RoundFrom : (c : Cursor) → Small c → RoundFrom c (round c)
unfolding round round_at
round-RoundFrom c small = go (skip_space c).rest refl
  where
    d : Cursor
    d = skip_space c

    from_first : (r : Round) → IsRound d r → RoundFrom c r
    from_first (skipped _) h = h
    from_first (emitted _ _) h = h
    from_first (failed _) h = h
    from_first (ended _) h = elim h [ ]

    go : (xs : Bytes) → d.rest ≡ xs → RoundFrom c (round_at xs d)
    go [] e = (refl, e)
    go (b ∷ xs) e =
        from_first (byte_round b d)
          (byte_round-IsRound d b xs (Small-Reads c d (skip_space-Reads c) small) e)

positive : (c d : Cursor) (n : ℕ) → d ≡ advances n c → length d.rest < length c.rest → 0 < n
unfolding advances
positive c d zero p lt = absurd (omega (arith, lt, ap (λ (y : Cursor). length y.rest) p))
positive c d (suc n) p lt = omega arith

IsOutcome-cons_token :
    (c d : Cursor) (t : Token) (o : Outcome)
    → IsLexed (skip_space c) t d
    → IsOutcome d o
    → IsOutcome c (cons_token t o)
IsOutcome-cons_token c d t (tokens ts) x h =
    token (skip_space-Blank c) x.reads.0 (positive (skip_space c) d _ x.reads.2 x.shorter) x.reads.1
      x.at x.not_eof x.text (subst (λ (y : Cursor). IsTokens y ts) x.reads.2 h)
IsOutcome-cons_token c d t (error e) x h = behind (skip_space-Blank c) x h
IsOutcome-cons_token c d t out_of_fuel x h = h

IsOutcome-skipped :
    (c d : Cursor) (o : Outcome)
    → Blank Place.code (skip_space c) d
    → Reads (skip_space c) d
    → IsOutcome d o
    → IsOutcome c o
IsOutcome-skipped c d (tokens ts) b r h =
    IsTokens-Blank c d ts (Blank-trans Place.code c _ d (skip_space-Blank c) b) h
IsOutcome-skipped c d (error e) b r h =
    IsFailure-Blank c d e (Blank-trans Place.code c _ d (skip_space-Blank c) b) h
IsOutcome-skipped c d out_of_fuel b r h = h

tokenize_from-IsOutcome :
    (fuel : ℕ) (c : Cursor) → Small c → length c.rest < fuel → IsOutcome c (tokenize_from fuel c)
unfolding tokenize_from
tokenize_from-IsOutcome zero c small h = absurd (omega arith)
tokenize_from-IsOutcome (suc fuel) c small h =
    go (round c) refl (round-RoundFrom c small) (λ d r lt.
      tokenize_from-IsOutcome fuel d (Small-Reads c d r small)
        (omega (arith, lt, length-Reads c (skip_space c) (skip_space-Reads c))))
  where
    go :
        (r : Round)
        → round c ≡ r
        → RoundFrom c r
        → ((d : Cursor)
            → Reads c d
            → length d.rest < length (skip_space c).rest
            → IsOutcome d (tokenize_from fuel d))
        → IsOutcome c (tokenize_from (suc fuel) c)
    go (skipped d) p (b, (r, lt)) rec =
        rw (p, tokenize_from)
          (IsOutcome-skipped c d _ b r (rec d (Reads-trans c _ d (skip_space-Reads c) r) lt))
    go (emitted t d) p x rec =
        rw (p, tokenize_from)
          (IsOutcome-cons_token c d t _ x
            (rec d (Reads-trans c _ d (skip_space-Reads c) x.reads) x.shorter))
    go (failed e) p at rec = rw (p, tokenize_from) (here (skip_space-Blank c) at)
    go (ended d) p (q, z) rec =
        rw (p, tokenize_from) (at_end (subst (Blank Place.code c) (sym q) (skip_space-Blank c)) z)

-- The cursor that the loop starts from.
abbrev pub begin : Bytes → SourceLocation → Cursor
begin src start = skip_bom (start_cursor src start)

skip_bom-Reads : (c : Cursor) → Reads c (skip_bom c)
unfolding skip_bom
skip_bom-Reads c = elim (Bool-cases bom) [
  | inl y ↦ rw y (
      Reads-trans c _ _ (Reads-advance c) (
        Reads-trans (advance c) _ _ (Reads-advance (advance c))
          (Reads-advance (advance (advance c)))))
  | inr y ↦ rw y (Reads-refl c)
]
  where
    bom : Bool
    bom = peek c.rest 0 == 0xEF && peek c.rest 1 == 0xBB && peek c.rest 2 == 0xBF

start_cursor_lem :
    (src : Bytes) (start : SourceLocation)
    → start.col < 2 ^ 32
    → Small (start_cursor src start) × ((start_cursor src start).rest ≡ src)
unfolding start_cursor
start_cursor_lem src start h = elim (Bool-cases (start.line == 0)) [
  | inl y ↦ rw y (omega arith, refl)
  | inr y ↦ rw y (h, refl)
]

tokenize-IsOutcome :
    (src : Bytes) (start : SourceLocation)
    → start.col < 2 ^ 32
    → IsOutcome (begin src start) (tokenize src start)
unfolding tokenize
tokenize-IsOutcome src start h =
    tokenize_from-IsOutcome (suc (length src)) (begin src start)
      (Small-Reads c0 _ (skip_bom-Reads c0) (start_cursor_lem src start h).0)
      (omega (
        arith,
        length-Reads c0 _ (skip_bom-Reads c0),
        ap (λ (l : Bytes). length l) (start_cursor_lem src start h).1,
      ))
  where
    c0 : Cursor
    c0 = start_cursor src start

-- If `tokenize` succeeds, its tokens cover the source after the byte order mark: before each token there are
-- only spaces, tabs and comments; the token takes one byte or more from its location on, and its text is
-- these bytes ("\n" for a line break of any form); the last token, and no other, is the end of file.
-- The start column is a uint32_t.
pub tokenize-IsTokens :
    (src : Bytes) (start : SourceLocation) (ts : List Token)
    → start.col < 2 ^ 32
    → tokenize src start ≡ tokens ts
    → IsTokens (begin src start) ts
tokenize-IsTokens src start ts h e = rw e at (tokenize-IsOutcome src start h)

-- The loop of `tokenize` ends on every source: each round but the last reads a byte. The start column
-- is a uint32_t.
pub tokenize-ne-out_of_fuel :
    (src : Bytes) (start : SourceLocation) → start.col < 2 ^ 32 → tokenize src start ≢ out_of_fuel
tokenize-ne-out_of_fuel src start h e = rw e at (tokenize-IsOutcome src start h)
