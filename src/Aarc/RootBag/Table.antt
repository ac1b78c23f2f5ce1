-- ===== src/Aarc/RootBag/Table.antt =====
-- A table that holds a multiset: each key it counts is found before the first empty slot of its probing.
use native.Mathlib.Nat.{mod-lt}
use loxis_programming_langua.Prelude.{
  ℕ, zero, suc, ◌+◌, ◌≤◌, ◌<◌, ◌≡◌, refl, ap, ◌∙◌, ◌≢◌, inl, inr, true, false, arith, ltb, ltb→lt,
  ◌==◌, if◌then◌else◌, Bool-cases, ==_iff, update, sum_below,
}
use loxis_programming_langua.Aarc.RootBag.{empty_key, tombstone_key, is_live, home, mix}
use loxis_programming_langua.Aarc.RootBag.Walk.{walk, walk_reaches, IsClear}

abbrev pub live_at : (ℕ → ℕ) → ℕ → ℕ
live_at keys i = if is_live (keys i) then 1 else 0

abbrev pub tomb_at : (ℕ → ℕ) → ℕ → ℕ
tomb_at keys i = if keys i == tombstone_key then 1 else 0

module _ (width : ℕ) (keys vals : ℕ → ℕ) (tombs : ℕ) (f : ℕ → ℕ) where
  pub record Located (k : ℕ) : Type 0 where
    pub steps : ℕ
    pub stands : keys (walk width (home width k) steps) ≡ k
    pub clear : IsClear width keys (home width k) steps
    pub inside : home width k < width

  -- The counts of the keys, and how many tombstones there are.
  pub record Table : Type 0 where
    pub located : (k : ℕ) → 0 < f k → Located k
    pub only : (k : ℕ) → 0 < f k → is_live k ≡ true
    pub stored :
        (i : ℕ) → i < width → is_live (keys i) ≡ true → (f (keys i) ≡ vals i) × (0 < vals i)
    pub single :
        (i j : ℕ) → i < width → j < width → is_live (keys i) ≡ true → keys i ≡ keys j → i ≡ j
    pub buried : tombs ≡ sum_below width (tomb_at keys)

pub home-lt : (width k : ℕ) → 0 < width → home width k < width
home-lt width k p = mod-lt (mix k) p

-- Where not every slot is live or a tombstone, some slot is empty.
pub has_empty :
    (n : ℕ) (keys : ℕ → ℕ)
    → sum_below n (live_at keys) + sum_below n (tomb_at keys) < n
    → (e : ℕ) × (e < n) × (keys e ≡ empty_key)
has_empty zero keys h = elim h [ ]
has_empty (suc n) keys h = elim (Bool-cases (keys n == empty_key)) [
  | inl free ↦ (n, omega arith, (==_iff _ _).0 free)
  | inr full ↦
      let one : live_at keys n + tomb_at keys n ≡ 1 = elim (Bool-cases (keys n == tombstone_key)) [
        | inl t ↦ rw (full, t) refl
        | inr t ↦ rw (full, t) refl
      ] in
      let (e, l, s) = has_empty n keys (omega (arith, h, one)) in (e, omega (arith, l), s)
]

-- The probing past full slots ends before it has been round once.
pub clear_short :
    (width : ℕ) (keys : ℕ → ℕ) (i n e : ℕ)
    → i < width
    → e < width
    → keys e ≡ empty_key
    → IsClear width keys i n
    → n < width
clear_short width keys i n e h l free c =
    let (m, short, at) = walk_reaches width i e h l in
    elim (Bool-cases (ltb m n)) [
      | inl less ↦ absurd (c m (ltb→lt m n less) (ap keys at ∙ free))
      | inr more ↦ omega (arith, short, below m n more)
    ]
  where
    below : (m n : ℕ) → ltb m n ≡ false → n ≤ m
    below m n q = ground (arith, q)

pub live-ne-empty_key : (k : ℕ) → is_live k ≡ true → k ≢ empty_key
live-ne-empty_key k valid e = ground (arith, valid, e)

-- A slot that takes another key than the empty one keeps every probing clear.
pub IsClear-stays :
    (width : ℕ) (keys : ℕ → ℕ) (slot w i n : ℕ)
    → w ≢ empty_key
    → IsClear width keys i n
    → IsClear width (update keys slot w) i n
IsClear-stays width keys slot w i n full c m l = elim (Bool-cases (slot == walk width i m)) [
  | inl e ↦ rw e full
  | inr e ↦ rw e (c m l)
]
