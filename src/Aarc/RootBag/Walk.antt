-- ===== src/Aarc/RootBag/Walk.antt =====
-- The slots in the order in which a key is probed for.
use native.Mathlib.Nat.{mod-lt, mod-eq_of_lt, mod_self}
use loxis_programming_langua.Prelude.{
  ℕ, zero, suc, ◌+◌, ◌-◌, ◌%◌, ◌≤◌, ◌<◌, ◌≡◌, refl, ap, ◌∙◌, ◌≢◌, inl, inr, arith, ltb, ltb→lt,
  Bool-cases,
}
use loxis_programming_langua.Aarc.RootBag.{empty_key, next_slot}

pub next_slot-lt : (width i : ℕ) → 0 < width → next_slot width i < width
next_slot-lt width i p = mod-lt (i + 1) p

abbrev pub walk : ℕ → ℕ → ℕ → ℕ
walk width i zero = i
walk width i (suc n) = walk width (next_slot width i) n

walk-add : (width i a b : ℕ) → walk width i (a + b) ≡ walk width (walk width i a) b
walk-add width i zero b = let e : 0 + b ≡ b = omega arith in ap (walk width i) e
walk-add width i (suc a) b =
    let e : suc a + b ≡ suc (a + b) = omega arith in
    ap (walk width i) e ∙ walk-add width (next_slot width i) a b

pub walk-suc : (width i n : ℕ) → walk width i (suc n) ≡ next_slot width (walk width i n)
walk-suc width i zero = refl
walk-suc width i (suc n) = walk-suc width (next_slot width i) n

pub walk-lt : (width i n : ℕ) → i < width → walk width i n < width
walk-lt width i zero h = h
walk-lt width i (suc n) h =
    walk-lt width (next_slot width i) n (next_slot-lt width i (omega (arith, h)))

walk_up : (width i n : ℕ) → i + n < width → walk width i n ≡ i + n
walk_up width i zero h = omega arith
walk_up width i (suc n) h =
    let step : next_slot width i ≡ i + 1 = mod-eq_of_lt (omega (arith, h)) in
    ap (λ x. walk width x n) step ∙ walk_up width (i + 1) n (omega (arith, h)) ∙ omega arith

walk_wrap : (width i : ℕ) → i < width → walk width i (suc (width - 1 - i)) ≡ 0
walk_wrap width i h =
    walk-suc width i (width - 1 - i)
    ∙ ap (next_slot width) (walk_up width i (width - 1 - i) (omega (arith, h)))
    ∙ ap (λ x. x % width) full
    ∙ mod_self width
  where
    full : i + (width - 1 - i) + 1 ≡ width
    full = omega (arith, h)

-- The probing comes to every slot.
pub walk_reaches :
    (width i e : ℕ) → i < width → e < width → (n : ℕ) × (n < width) × (walk width i n ≡ e)
walk_reaches width i e h l = elim (Bool-cases (ltb e i)) [
  | inl before ↦
      let less = ltb→lt e i before in
      (
        suc (width - 1 - i) + e,
        omega (arith, less, h),
        walk-add width i (suc (width - 1 - i)) e
            ∙ ap (λ x. walk width x e) (walk_wrap width i h)
            ∙ walk_up width 0 e (omega (arith, l))
            ∙ omega arith,
      )
  | inr after ↦
      let more : i ≤ e = ground (arith, after) in
      (
        e - i,
        omega (arith, more, l),
        walk_up width i (e - i) (omega (arith, more, l)) ∙ omega (arith, more),
      )
]

-- No empty slot stands among the first `n` that are probed from `i` on.
abbrev pub IsClear : ℕ → (ℕ → ℕ) → ℕ → ℕ → Type 0
IsClear width keys i n = (m : ℕ) → m < n → keys (walk width i m) ≢ empty_key
