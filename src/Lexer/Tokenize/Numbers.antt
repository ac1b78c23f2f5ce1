-- ===== src/Lexer/Tokenize/Numbers.antt =====
-- The scanner of numbers: it stays on its line, so the column that it sets back after an exponent
-- without digits is the one that the cursor had there.
use loxis_programming_langua.Prelude.{
  ℕ, ◌+◌, ◌-◌, ◌^◌, ◌%◌, ◌≤◌, ◌<◌, Bool, true, false, ◌&&◌, ◌||◌, [], ◌∷◌, ◌==◌, if◌then◌else◌,
  length, arith, ◌≡◌, refl, sym, ap, subst, ◌∙◌, Bool-cases, inl, inr,
}
use loxis_programming_langua.Lexer.Cursor.{
  Bytes, Cursor, advance, incr, skip_in, skip_while, peek, is_line_end, digit_or_under,
  xdigit_or_under, is_digit,
}
use loxis_programming_langua.Lexer.Scan.{
  Part, fraction, exponent_at, sign, exponent, suffix, decimal, number,
}
use loxis_programming_langua.Lexer.Tokenize.Reads.{
  Reads, stay, rest-advance, Reads-trans, Reads-advance, Reads-skip_in, Small, length-advance,
}
use loxis_programming_langua.Lexer.Tokenize.Scans.{Moves, Moves-Reads, Moves-advance, skip_step}

-- `c` is on the line of `s`, with `n` bytes left at most.
record IsFlat (s : Cursor) (n : ℕ) (c : Cursor) : Type 0 where
  reads : Reads s c
  before : s.pos ≤ c.pos
  line : c.line ≡ s.line
  col : c.col ≡ (s.col + (c.pos - s.pos)) % 2 ^ 32
  left : length c.rest ≤ n

plain_advance :
    (c : Cursor) (b : ℕ) (xs : Bytes)
    → c.rest ≡ b ∷ xs
    → is_line_end b ≡ false
    → advance c ≡ record { rest = xs; pos = c.pos + 1; line = c.line; col = incr c.col }
unfolding advance is_line_end
plain_advance c b xs e h = rw e (ground arith)

IsFlat-advance :
    (s : Cursor) (n : ℕ) (c : Cursor)
    → IsFlat s n c
    → is_line_end (peek c.rest 0) ≡ false
    → IsFlat s n (advance c)
IsFlat-advance s n c f h = go c.rest refl
  where
    go : (xs : Bytes) → c.rest ≡ xs → IsFlat s n (advance c)
    go [] e = rw (stay c e) f
    go (b ∷ xs) e = record {
      reads = Reads-trans s c _ f.reads (Reads-advance c);
      before = rw p (omega (arith, f.before));
      line = rw p f.line;
      col = rw p (omega (arith, f.before, f.col));
      left = omega (arith, f.left, length-advance c e);
    }
      where
        p : advance c ≡ record { rest = xs; pos = c.pos + 1; line = c.line; col = incr c.col }
        p = plain_advance c b xs e (rw e at h)

IsFlat-first :
    (c : Cursor) (b : ℕ) (xs : Bytes)
    → Small c
    → c.rest ≡ b ∷ xs
    → is_line_end b ≡ false
    → IsFlat c (length xs) (advance c)
IsFlat-first c b xs small e h = record {
  reads = Reads-advance c;
  before = rw p (omega arith);
  line = rw p refl;
  col = rw p (omega arith);
  left = rw p (omega arith);
}
  where
    p : advance c ≡ record { rest = xs; pos = c.pos + 1; line = c.line; col = incr c.col }
    p = plain_advance c b xs e h

IsFlat-skip_in :
    (p : ℕ → Bool) (s : Cursor) (n : ℕ) (xs : Bytes) (c : Cursor)
    → ((b : ℕ) → p b ≡ true → is_line_end b ≡ false)
    → c.rest ≡ xs
    → IsFlat s n c
    → IsFlat s n (skip_in p xs c)
unfolding skip_in
IsFlat-skip_in p s n [] c plain e f = f
IsFlat-skip_in p s n (b ∷ xs) c plain e f = elim (Bool-cases (p b)) [
  | inl y ↦
      rw (y, skip_in)
        (IsFlat-skip_in p s n xs (advance c) plain (rest-advance c e)
          (IsFlat-advance s n c f (rw e (plain b y))))
  | inr y ↦ rw (y, skip_in) f
]

IsFlat-if :
    (t : Bool) (s : Cursor) (n : ℕ) (p q : Part)
    → (t ≡ true → IsFlat s n p.1)
    → (t ≡ false → IsFlat s n q.1)
    → IsFlat s n (if t then p else q).1
IsFlat-if true s n p q f g = f refl
IsFlat-if false s n p q f g = g refl

digits_plain : (b : ℕ) → digit_or_under b ≡ true → is_line_end b ≡ false
unfolding digit_or_under is_digit is_line_end
digits_plain b h = ground arith

IsFlat-digits :
    (s : Cursor) (n : ℕ) (c : Cursor) → IsFlat s n c → IsFlat s n (skip_while digit_or_under c)
IsFlat-digits s n c f = IsFlat-skip_in digit_or_under s n c.rest c digits_plain refl f

fraction-IsFlat : (s : Cursor) (n : ℕ) (p : Part) → IsFlat s n p.1 → IsFlat s n (fraction p).1
unfolding fraction is_line_end
fraction-IsFlat s n (x, c) f =
    IsFlat-if (peek c.rest 0 == b'.' && is_digit (peek c.rest 1)) s n _ _
      (λ t. IsFlat-digits s n _ (IsFlat-advance s n c f (ground arith))) (λ _. f)

suffix-IsFlat : (s : Cursor) (n : ℕ) (p : Part) → IsFlat s n p.1 → IsFlat s n (suffix p).1
unfolding suffix is_line_end
suffix-IsFlat s n (x, c) f =
    IsFlat-if (peek c.rest 0 == b'f' || peek c.rest 0 == b'F') s n _ _
      (λ t. IsFlat-advance s n c f (ground arith)) (λ _. f)

sign-IsFlat : (s : Cursor) (n : ℕ) (c : Cursor) → IsFlat s n c → IsFlat s n (sign c)
unfolding sign is_line_end
sign-IsFlat s n c f = elim (Bool-cases (peek c.rest 0 == b'+' || peek c.rest 0 == b'-')) [
  | inl t ↦ rw t (IsFlat-advance s n c f (ground arith))
  | inr t ↦ rw t f
]

-- The reset gives the cursor that stood before the exponent.
reset :
    (s : Cursor) (n : ℕ) (c d : Cursor)
    → IsFlat s n c
    → IsFlat s n d
    → record { rest = c.rest; pos = c.pos; line = d.line; col = (s.col + (c.pos - s.pos)) % 2 ^ 32 }
      ≡ c
reset s n c d f g = rw (g.line, sym f.line, sym f.col) refl

exponent-IsFlat : (s : Cursor) (n : ℕ) (p : Part) → IsFlat s n p.1 → IsFlat s n (exponent s p).1
unfolding exponent exponent_at is_line_end
exponent-IsFlat s n (x, c) f = IsFlat-if _ s n _ _ (λ t. at_sign (advanced t)) (λ _. f)
  where
    d : Cursor
    d = sign (advance c)

    advanced : (peek c.rest 0 == b'e' || peek c.rest 0 == b'E') ≡ true → IsFlat s n d
    advanced t = sign-IsFlat s n _ (IsFlat-advance s n c f (ground arith))

    at_sign : IsFlat s n d → IsFlat s n (exponent_at s c d).1
    at_sign g =
        IsFlat-if _ s n _ _ (λ _. subst (IsFlat s n) (sym (reset s n c d f g)) f)
          (λ _. IsFlat-digits s n d g)

rest_of-IsFlat :
    (s : Cursor) (n : ℕ) (p : Part)
    → IsFlat s n p.1
    → IsFlat s n (suffix (exponent s (fraction p))).1
rest_of-IsFlat s n p f = suffix-IsFlat s n _ (exponent-IsFlat s n _ (fraction-IsFlat s n p f))

skip_stop :
    (p : ℕ → Bool) (ys : Bytes) (c : Cursor) (b : ℕ) (xs : Bytes)
    → ys ≡ b ∷ xs
    → p b ≡ false
    → skip_in p ys c ≡ c
unfolding skip_in
skip_stop p ys c b xs e h = rw (e, h, skip_in) refl

first_digit :
    (c : Cursor) (b : ℕ) (xs : Bytes)
    → Small c
    → c.rest ≡ b ∷ xs
    → is_digit b ≡ true
    → IsFlat c (length xs) (skip_while digit_or_under c)
unfolding digit_or_under
first_digit c b xs small e h = rw (skip_step digit_or_under c.rest c b xs e (rw h refl)) (
    IsFlat-skip_in digit_or_under c (length xs) xs (advance c) digits_plain (rest-advance c e)
      (IsFlat-first c b xs small e (digits_plain b (rw h refl))))

fraction_dot :
    (c : Cursor)
    → peek c.rest 0 ≡ b'.'
    → is_digit (peek c.rest 1) ≡ true
    → (fraction (false, c)).1 ≡ skip_while digit_or_under (advance c)
unfolding fraction
fraction_dot c h h' = rw (h, h') refl

first_dot :
    (c : Cursor) (xs : Bytes)
    → Small c
    → c.rest ≡ b'.' ∷ xs
    → is_digit (peek xs 0) ≡ true
    → IsFlat c (length xs) (fraction (false, skip_while digit_or_under c)).1
unfolding digit_or_under is_digit is_line_end
first_dot c xs small e h =
    rw
      (
        skip_stop digit_or_under c.rest c b'.' xs e refl,
        fraction_dot c (ap (λ (l : Bytes). peek l 0) e)
            (ap (λ (l : Bytes). is_digit (peek l 1)) e ∙ h),
      )
      (IsFlat-digits c (length xs) _ (IsFlat-first c b'.' xs small e refl))

decimal-IsFlat :
    (c : Cursor) (b : ℕ) (xs : Bytes)
    → Small c
    → c.rest ≡ b ∷ xs
    → (is_digit b || (b == b'.' && is_digit (peek xs 0))) ≡ true
    → IsFlat c (length xs) (decimal c).1
unfolding decimal
decimal-IsFlat c b xs small e h = elim (Bool-cases (is_digit b)) [
  | inl y ↦ rest_of-IsFlat c (length xs) _ (first_digit c b xs small e y)
  | inr y ↦
      let dot : b ≡ b'.' = ground (arith, h, y) in
      let after : is_digit (peek xs 0) ≡ true = ground (arith, h, y) in
      suffix-IsFlat c (length xs) _
        (exponent-IsFlat c (length xs) _ (first_dot c xs small (rw dot at e) after))
]

-- A number reads its first byte and stays inside the source.
pub number-Moves :
    (c : Cursor) (b : ℕ) (xs : Bytes)
    → Small c
    → c.rest ≡ b ∷ xs
    → (is_digit b || (b == b'.' && is_digit (peek xs 0))) ≡ true
    → Moves c (number c).1
unfolding number
number-Moves c b xs small e h = go _ refl
  where
    f : IsFlat c (length xs) (decimal c).1
    f = decimal-IsFlat c b xs small e h

    hex : Moves c (skip_while xdigit_or_under (advance (advance c)))
    hex = Moves-Reads c (advance c) _ (Moves-advance c e) (
        Reads-trans (advance c) _ _ (Reads-advance (advance c))
          (Reads-skip_in xdigit_or_under _ (advance (advance c)) refl))

    lt : length (decimal c).1.rest < length c.rest
    lt = omega (arith, f.left, ap length e)

    p : ℕ
    p = peek c.rest 1

    go :
        (t : Bool)
        → (peek c.rest 0 == b'0' && (p == b'x' || p == b'b' || p == b'o')) ≡ t
        → Moves c (number c).1
    go true y = rw y hex
    go false y = rw y (f.reads, lt)
