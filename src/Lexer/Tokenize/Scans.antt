-- ===== src/Lexer/Tokenize/Scans.antt =====
-- Each scanner of the lexer moves the cursor over bytes of the source.
use loxis_programming_langua.Prelude.{
  ℕ, zero, suc, ◌||◌, not, sym, ◌∙◌, ◌<◌, Bool, true, false, ◌&&◌, [], ◌∷◌, Option, none, some,
  ◌==◌, if◌then◌else◌, length, arith, ◌≡◌, refl, Bool-cases, inl, inr,
}
use loxis_programming_langua.Lexer.Cursor.{Bytes, Cursor, advance, skip_in, peek}
use loxis_programming_langua.Lexer.Scan.{
  Mode, Move, transition, string_in, literal_str, char_body, CharScan, literal_char, closed,
  open_at, comment_in, at_end,
}
use loxis_programming_langua.Lexer.Tokenize.{run_out}
use loxis_programming_langua.Lexer.Tokenize.Reads.{
  Reads, rest-advance, Reads-refl, Reads-trans, Reads-advance, length-advance, length-Reads,
}

-- A scanner's cursor, if it has one, is past the first byte.
abbrev pub Moves : Cursor → Cursor → Type 0
Moves c d = Reads c d × (length d.rest < length c.rest)

pub Moves-Reads : (c d e : Cursor) → Moves c d → Reads d e → Moves c e
Moves-Reads c d e (r, lt) s = (Reads-trans c d e r s, omega (arith, length-Reads d e s))

pub Moves-advance : (c : Cursor) {b : ℕ} {xs : Bytes} → c.rest ≡ b ∷ xs → Moves c (advance c)
Moves-advance c e = (Reads-advance c, length-advance c e)

abbrev pub ReadsTo : Cursor → Option Cursor → Type 0
ReadsTo c none = Unit
ReadsTo c (some d) = Reads c d

ReadsTo-trans : (c d : Cursor) (o : Option Cursor) → Reads c d → ReadsTo d o → ReadsTo c o
ReadsTo-trans c d none r s = tt
ReadsTo-trans c d (some e) r s = Reads-trans c d e r s

string_in-ReadsTo :
    (m : Mode) (xs : Bytes) (c : Cursor) → c.rest ≡ xs → ReadsTo c (string_in m xs c)
unfolding string_in
string_in-ReadsTo m [] c e = tt
string_in-ReadsTo m (b ∷ xs) c e =
    go (transition m b (peek xs 0)) (λ m'. string_in-ReadsTo m' xs (advance c) (rest-advance c e))
      refl
  where
    go :
        (t : Move)
        → ((m' : Mode) → ReadsTo (advance c) (string_in m' xs (advance c)))
        → transition m b (peek xs 0) ≡ t
        → ReadsTo c (string_in m (b ∷ xs) c)
    go Move.stop rec f = rw (f, string_in) (Reads-advance c)
    go (Move.next m') rec f =
        rw (f, string_in) (ReadsTo-trans c (advance c) _ (Reads-advance c) (rec m'))

pub literal_str-ReadsTo : (c : Cursor) → ReadsTo (advance c) (literal_str c)
unfolding literal_str
literal_str-ReadsTo c = string_in-ReadsTo Mode.text (advance c).rest (advance c) refl

pub comment_in-Reads : (xs : Bytes) (c : Cursor) → c.rest ≡ xs → Reads c (comment_in xs c)
unfolding comment_in
comment_in-Reads [] c e = Reads-refl c
comment_in-Reads (b ∷ xs) c e = elim (Bool-cases (b == b'*' && peek xs 0 == b'/')) [
  | inl y ↦ rw (y, comment_in) (Reads-refl c)
  | inr y ↦
      rw (y, comment_in)
        (Reads-trans c _ _ (Reads-advance c) (comment_in-Reads xs (advance c) (rest-advance c e)))
]

Reads-if : (t : Bool) (c d e : Cursor) → Reads c d → Reads c e → Reads c (if t then d else e)
Reads-if true c d e r s = r
Reads-if false c d e r s = s

abbrev pub CharReads : Cursor → CharScan → Type 0
CharReads c (closed d) = Reads c d
CharReads c (open_at d) = Reads c d × ((peek d.rest 0 == b'\'') ≡ false)

pub Reads-advance_twice : (c : Cursor) → Reads c (advance (advance c))
Reads-advance_twice c = Reads-trans c (advance c) _ (Reads-advance c) (Reads-advance (advance c))

char_body-Reads : (c : Cursor) → Reads c (char_body c)
unfolding char_body
char_body-Reads c =
    Reads-if _ c _ _ (Reads-if _ c _ _ (Reads-advance c) (Reads-advance_twice c))
      (Reads-if _ c _ _ (Reads-advance c) (Reads-refl c))

quote_missing :
    (d : Cursor)
    → (at_end d || not (peek d.rest 0 == b'\'')) ≡ true
    → (peek d.rest 0 == b'\'') ≡ false
quote_missing d h = go d.rest h
  where
    go :
        (xs : Bytes)
        → (elim xs [ [] ↦ true | _ ∷ _ ↦ false ] || not (peek xs 0 == b'\'')) ≡ true
        → (peek xs 0 == b'\'') ≡ false
    go [] e = refl
    go (x ∷ xs) e = ground (arith, e)

pub literal_char-CharReads : (c : Cursor) → CharReads (advance c) (literal_char c)
unfolding literal_char
literal_char-CharReads c = go _ refl
  where
    d : Cursor
    d = char_body (advance c)

    go :
        (t : Bool)
        → (at_end d || not (peek d.rest 0 == b'\'')) ≡ t
        → CharReads (advance c) (if t then open_at d else closed (advance d))
    go true e = (char_body-Reads (advance c), quote_missing d e)
    go false e = Reads-trans (advance c) d _ (char_body-Reads (advance c)) (Reads-advance d)

pub run_out-Reads : (xs : Bytes) (c : Cursor) → c.rest ≡ xs → Reads c (run_out xs c)
unfolding run_out
run_out-Reads [] c e = Reads-refl c
run_out-Reads (b ∷ xs) c e =
    Reads-trans c _ _ (Reads-advance c) (run_out-Reads xs (advance c) (rest-advance c e))

pub run_out_end : (xs : Bytes) (c : Cursor) → c.rest ≡ xs → (run_out xs c).rest ≡ []
unfolding run_out
run_out_end [] c e = e
run_out_end (b ∷ xs) c e = run_out_end xs (advance c) (rest-advance c e)

-- A comment whose scanner came to the end has no "*/".
pub comment_in_open :
    (xs : Bytes) (c : Cursor) (k : ℕ)
    → c.rest ≡ xs
    → (comment_in xs c).rest ≡ []
    → (peek xs k == b'*' && peek xs (suc k) == b'/') ≡ false
unfolding comment_in
comment_in_open [] c k e h = ground arith
comment_in_open (b ∷ xs) c k e h = elim (Bool-cases (b == b'*' && peek xs 0 == b'/')) [
  | inl y ↦ absurd (nonempty (sym e ∙ stopped y))
  | inr y ↦ later k y (λ j. comment_in_open xs (advance c) j (rest-advance c e) (onward y))
]
  where
    nonempty : (b ∷ xs ≡ []) → ⊥
    nonempty z = cc

    stopped : (b == b'*' && peek xs 0 == b'/') ≡ true → c.rest ≡ []
    stopped y = rw (y, comment_in) at h

    onward : (b == b'*' && peek xs 0 == b'/') ≡ false → (comment_in xs (advance c)).rest ≡ []
    onward y = rw (y, comment_in) at h

    later :
        (j : ℕ)
        → (b == b'*' && peek xs 0 == b'/') ≡ false
        → ((i : ℕ) → (peek xs i == b'*' && peek xs (suc i) == b'/') ≡ false)
        → (peek (b ∷ xs) j == b'*' && peek (b ∷ xs) (suc j) == b'/') ≡ false
    later zero y rest = y
    later (suc j) y rest = rest j

pub skip_step :
    (p : ℕ → Bool) (ys : Bytes) (c : Cursor) (b : ℕ) (xs : Bytes)
    → ys ≡ b ∷ xs
    → p b ≡ true
    → skip_in p ys c ≡ skip_in p xs (advance c)
unfolding skip_in
skip_step p ys c b xs e h = rw (e, h, skip_in) refl
