-- ===== src/Lexer/Tokenize/Reads.antt =====
-- How far the lexer's cursor moves: what one cursor reads to get to another.
use loxis_programming_langua.Prelude.{
  ℕ, zero, suc, ◌+◌, ◌^◌, ◌≤◌, ◌<◌, Bool, [], ◌∷◌, length, take, drop, arith, ◌≡◌, refl, ap, ◌∙◌,
  Bool-cases, inl, inr, length-drop,
}
use loxis_programming_langua.Lexer.Cursor.{Bytes, Cursor, advance, advances, skip_in, text_between}

-- The second cursor is some bytes on from the first.
abbrev pub Reads : Cursor → Cursor → Type 0
Reads c c' = (n : ℕ) × (n ≤ length c.rest) × (c' ≡ advances n c)

pub stay : (c : Cursor) → c.rest ≡ [] → advance c ≡ c
unfolding advance
stay c e = rw e refl

pub rest-advance : (c : Cursor) {xs : Bytes} → c.rest ≡ xs → (advance c).rest ≡ drop 1 xs
unfolding advance
rest-advance c {xs = []} e = rw e refl
rest-advance c {xs = b ∷ xs} e = rw e (ground arith)

pos-advance : (c : Cursor) {b : ℕ} {xs : Bytes} → c.rest ≡ b ∷ xs → (advance c).pos ≡ c.pos + 1
unfolding advance
pos-advance c e = rw e (ground arith)

drop-drop : (n : ℕ) (xs : Bytes) → drop n (drop 1 xs) ≡ drop (suc n) xs
drop-drop zero [] = refl
drop-drop (suc n) [] = refl
drop-drop n (x ∷ xs) = refl

pub rest-advances : (n : ℕ) (c : Cursor) → (advances n c).rest ≡ drop n c.rest
unfolding advances
rest-advances zero c = refl
rest-advances (suc n) c =
    rest-advances n (advance c) ∙ rw (rest-advance c refl) (drop-drop n c.rest)

pos-advances :
    (n : ℕ) (c : Cursor) {xs : Bytes} → c.rest ≡ xs → n ≤ length xs → (advances n c).pos ≡ c.pos + n
unfolding advances
pos-advances zero c e h = omega arith
pos-advances (suc n) c {xs = []} e h = absurd (omega arith)
pos-advances (suc n) c {xs = b ∷ xs} e h =
    omega (arith, pos-advance c e, pos-advances n (advance c) (rest-advance c e) (omega arith))

advances-advances : (m n : ℕ) (c : Cursor) → advances n (advances m c) ≡ advances (m + n) c
unfolding advances
advances-advances zero n c = ap (λ (k : ℕ). advances k c) zero_add
  where
    zero_add : n ≡ 0 + n
    zero_add = omega arith
advances-advances (suc m) n c =
    advances-advances m n (advance c) ∙ ap (λ (k : ℕ). advances k c) suc_add
  where
    suc_add : suc (m + n) ≡ suc m + n
    suc_add = omega arith

pub Reads-refl : (c : Cursor) → Reads c c
unfolding advances
Reads-refl c = (0, omega arith, refl)

pub Reads-trans : (c d e : Cursor) → Reads c d → Reads d e → Reads c e
Reads-trans c d e (m, le, p) (n, le', q) = (
  m + n,
  omega (arith, le'', length-drop m c.rest),
  q ∙ ap (advances n) p ∙ advances-advances m n c,
)
  where
    le'' : n ≤ length (drop m c.rest)
    le'' = rw (p, rest-advances m c) at le'

pub Reads-advance : (c : Cursor) → Reads c (advance c)
unfolding advances advance
Reads-advance c = go c.rest refl
  where
    go : (xs : Bytes) → c.rest ≡ xs → Reads c (advance c)
    go [] e = (0, omega arith, rw e refl)
    go (b ∷ xs) e = (1, rw e (omega arith), refl)

-- What is left gets shorter.
pub length-Reads : (c d : Cursor) → Reads c d → length d.rest ≤ length c.rest
length-Reads c d (n, le, p) = rw (p, rest-advances n c) (omega (arith, length-drop n c.rest))

pub text_between-Reads : (c d : Cursor) (r : Reads c d) → text_between c d ≡ take r.0 c.rest
text_between-Reads c d (n, le, p) =
    rw (p, pos-advances n c refl le) (ap (λ (k : ℕ). take k c.rest) (omega arith))

pub Reads-skip_in :
    (p : ℕ → Bool) (xs : Bytes) (c : Cursor) → c.rest ≡ xs → Reads c (skip_in p xs c)
unfolding skip_in
Reads-skip_in p [] c e = Reads-refl c
Reads-skip_in p (b ∷ xs) c e = elim (Bool-cases (p b)) [
  | inl y ↦
      rw (y, skip_in)
        (Reads-trans c _ _ (Reads-advance c) (Reads-skip_in p xs (advance c) (rest-advance c e)))
  | inr y ↦ rw (y, skip_in) (Reads-refl c)
]

-- A step over a byte makes progress.
pub length-advance :
    (c : Cursor) {b : ℕ} {xs : Bytes} → c.rest ≡ b ∷ xs → length (advance c).rest < length c.rest
length-advance c e = rw (rest-advance c e, e) (omega arith)

-- The column that `advance` gives stays a uint32_t.
abbrev pub Small : Cursor → Type 0
Small c = c.col < 2 ^ 32

Small-advance : (c : Cursor) → Small c → Small (advance c)
unfolding advance
Small-advance c h = go c.rest refl
  where
    go : (xs : Bytes) → c.rest ≡ xs → Small (advance c)
    go [] e = rw e h
    go (b ∷ xs) e = rw e (ground arith)

Small-advances : (n : ℕ) (c : Cursor) → Small c → Small (advances n c)
unfolding advances
Small-advances zero c h = h
Small-advances (suc n) c h = Small-advances n (advance c) (Small-advance c h)

pub Small-Reads : (c d : Cursor) → Reads c d → Small c → Small d
Small-Reads c d (n, le, p) h = rw p (Small-advances n c h)
