-- ===== src/Prelude/Arrays.antt =====
-- Vectors as functions: one element replaced, and sums over the elements.
use Prim.Native.Nat.{ℕ, zero, suc, ◌+◌, ◌<◌}
use mathlib.Core.Path.{◌≡◌, refl}
use mathlib.Core.Logic.{◌≢◌, inl, inr}
use mathlib.Core.Bool.{false}
use native.Mathlib.Omega.{arith}
use loxis_programming_langua.Prelude.Tests.{◌==◌, ==_iff, Bool-cases}
use loxis_programming_langua.Prelude.Lists.{update}

pub update_self {ℓ} : {A : Type ℓ} (f : ℕ → A) (p : ℕ) (v : A) → update f p v p ≡ v
update_self f p v = rw (==_iff p p).1 refl

pub ==_ne : (p q : ℕ) → p ≢ q → (p == q) ≡ false
==_ne p q n = ground arith

pub update_ne {ℓ} : {A : Type ℓ} (f : ℕ → A) (p q : ℕ) (v : A) → p ≢ q → update f p v q ≡ f q
update_ne f p q v n = rw (==_ne p q n) refl

abbrev pub sum_below : ℕ → (ℕ → ℕ) → ℕ
sum_below zero f = 0
sum_below (suc n) f = f n + sum_below n f

pub sum_below_same :
    (n : ℕ) (f g : ℕ → ℕ) → ((i : ℕ) → i < n → f i ≡ g i) → sum_below n f ≡ sum_below n g
sum_below_same zero f g h = refl
sum_below_same (suc n) f g h =
    omega (arith, h n (omega arith), sum_below_same n f g (λ i l. h i (omega arith)))

pub sum_below_change :
    (n u : ℕ) (f g : ℕ → ℕ)
    → u < n
    → ((i : ℕ) → u ≢ i → f i ≡ g i)
    → sum_below n f + g u ≡ sum_below n g + f u
sum_below_change zero u f g l h = elim l [ ]
sum_below_change (suc n) u f g l h = elim (Bool-cases (u == n)) [
  | inl e ↦
      let same = (==_iff u n).0 e in
      let rest = sum_below_same n f g (λ i b. h i (λ w. absurd (omega (arith, w, same, b)))) in
      rw same (omega (arith, rest))
  | inr e ↦
      let apart : u ≢ n = λ w. absurd (ground (arith, w, e)) in
      omega (arith, h n apart, sum_below_change n u f g (omega (arith, apart, l)) h)
]
