-- ===== src/Aarc/RootBag/Multiset.antt =====
-- A bag behaves as a multiset.
use loxis_programming_langua.Prelude.{
  subst, ℕ, zero, suc, ◌+◌, ◌-◌, ◌^◌, ◌≤◌, ◌<◌, ◌≡◌, ◌↔◌, refl, sym, ap, ◌∙◌, ◌⊎◌, inl, inr, Bool,
  true, some, List, [], ◌∷◌, length, arith, ltb, ◌==◌, Bool-cases, ==_iff, update,
}
use loxis_programming_langua.Aarc.RootBag.{
  RootBag, is_live, home, new_bag, each_from, each, BagCall, add_call, remove_call, answer, calls,
}
use loxis_programming_langua.Aarc.RootBag.Walk.{walk, walk-lt}
use loxis_programming_langua.Aarc.RootBag.Put.{Holds}
use loxis_programming_langua.Aarc.RootBag.Remove.{remove_one-Removes}
use loxis_programming_langua.Aarc.RootBag.Grow.{add-Adds}

-- The multiset after the calls, as a function from keys to counts.
abbrev pub tally : List BagCall → (ℕ → ℕ) → ℕ → ℕ
tally [] f = f
tally (add_call key ∷ rest) f = tally rest (update f key (f key + 1))
tally (remove_call key ∷ rest) f = tally rest (update f key (f key - 1))

-- Whether each removed key was held.
abbrev pub answers : List BagCall → (ℕ → ℕ) → List Bool
answers [] f = []
answers (add_call key ∷ rest) f = answers rest (update f key (f key + 1))
answers (remove_call key ∷ rest) f = ltb 0 (f key) ∷ answers rest (update f key (f key - 1))

-- No call names one of the two keys that mark a slot.
abbrev pub AreKeys : List BagCall → Type 0
AreKeys [] = Unit
AreKeys (add_call key ∷ rest) = (is_live key ≡ true) × AreKeys rest
AreKeys (remove_call key ∷ rest) = (is_live key ≡ true) × AreKeys rest

infix 40 ◌∈◌
abbrev pub ◌∈◌ : ℕ × ℕ → List (ℕ × ℕ) → Type 0
p ∈ [] = ⊥
p ∈ q ∷ rest = (p ≡ q) ⊎ (p ∈ rest)

record Runs (cs : List BagCall) (bag : RootBag) (f : ℕ → ℕ) : Type 0 where
  out : RootBag
  returns : calls cs bag ≡ some (answers cs f, out)
  holds : Holds out (tally cs f)

calls-Runs :
    (cs : List BagCall) (bag : RootBag) (f : ℕ → ℕ) (n : ℕ)
    → Holds bag f
    → AreKeys cs
    → ((k : ℕ) → f k ≤ n)
    → n + length cs < 2 ^ 32
    → Runs cs bag f
unfolding calls
calls-Runs [] bag f n h v b l = record { out = bag; returns = refl; holds = h }
calls-Runs (add_call key ∷ cs) bag f n h v b l =
    let a = add-Adds key bag f h v.0 (omega (arith, b key, l)) in
    let rest =
      calls-Runs cs a.out (update f key (f key + 1)) (n + 1) a.holds v.1
        (λ k. elim (Bool-cases (key == k)) [
          | inl e ↦ rw e (omega (arith, b key))
          | inr e ↦ rw e (omega (arith, b k))
        ])
        (omega (arith, l)) in
    record { out = rest.out; returns = rw (calls, a.returns) rest.returns; holds = rest.holds }
calls-Runs (remove_call key ∷ cs) bag f n h v b l =
    let r = remove_one-Removes key bag f h (omega (arith, b key, l)) v.0 in
    let rest =
      calls-Runs cs r.out (update f key (f key - 1)) n r.holds v.1
        (λ k. elim (Bool-cases (key == k)) [
          | inl e ↦ rw e (omega (arith, b key))
          | inr e ↦ rw e (b k)
        ])
        (omega (arith, l)) in
    record {
      out = rest.out;
      returns = rw (calls, r.returns) (ap (answer (ltb 0 (f key))) rest.returns);
      holds = rest.holds;
    }

new_bag-Holds : Holds new_bag (λ _. 0)
new_bag-Holds = record {
  table = record {
    located = λ k p. absurd (omega (arith, p));
    only = λ k p. absurd (omega (arith, p));
    stored = λ i l. absurd (omega (arith, l));
    single = λ i j l. absurd (omega (arith, l));
    buried = refl;
  };
  counted = refl;
  room = λ p. absurd (omega (arith, p));
}

module _ (bag : RootBag) where
  open bag use {keys, vals}

  -- The slots that `each` visits from `i` on.
  each_from_sound :
      (n i : ℕ) (k v : ℕ)
      → (k, v) ∈ each_from n i bag
      → (j : ℕ) × (i ≤ j) × (j < i + n) × (is_live (keys j) ≡ true) × (keys j ≡ k) × (vals j ≡ v)
  unfolding each_from
  each_from_sound zero i k v m = absurd m
  each_from_sound (suc n) i k v m = elim (Bool-cases (is_live (keys i))) [
    | inl live ↦ elim (rw live at m) [
      | inl e ↦ (
        i,
        omega arith,
        omega arith,
        live,
        sym (ap (λ (p : ℕ × ℕ). p.0) e),
        sym (ap (λ (p : ℕ × ℕ). p.1) e),
      )
      | inr rest ↦
          let (j, a, b, c, d, e) = each_from_sound n (i + 1) k v rest in
          (j, omega (arith, a), omega (arith, b), c, d, e)
    ]
    | inr dead ↦
        let (j, a, b, c, d, e) = each_from_sound n (i + 1) k v (rw dead at m) in
        (j, omega (arith, a), omega (arith, b), c, d, e)
  ]

  each_from_complete :
      (n i j : ℕ)
      → i ≤ j
      → j < i + n
      → is_live (keys j) ≡ true
      → (keys j, vals j) ∈ each_from n i bag
  unfolding each_from
  each_from_complete zero i j a b live = absurd (omega (arith, a, b))
  each_from_complete (suc n) i j a b live = elim (Bool-cases (i == j)) [
    | inl e ↦
        let same = (==_iff i j).0 e in
        let here : is_live (keys i) ≡ true = ap (λ x. is_live (keys x)) same ∙ live in
        rw here (inl (ap (λ x. (keys x, vals x)) (sym same)))
    | inr e ↦
        let rest = each_from_complete n (i + 1) j (ground (arith, a, e)) (omega (arith, b)) live in
        elim (Bool-cases (is_live (keys i))) [
          | inl here ↦ rw here (inr rest)
          | inr dead ↦ rw dead rest
        ]
  ]

-- No key is listed twice.
abbrev pub IsOnce : List (ℕ × ℕ) → Type 0
IsOnce [] = Unit
IsOnce ((k, _) ∷ rest) = ((v : ℕ) → ¬ ((k, v) ∈ rest)) × IsOnce rest

module _ (bag : RootBag) (f : ℕ → ℕ) (h : Holds bag f) where
  each_from-IsOnce : (n i : ℕ) → i + n ≤ bag.capacity → IsOnce (each_from n i bag)
  unfolding each_from
  each_from-IsOnce zero i l = tt
  each_from-IsOnce (suc n) i l =
      let rest = each_from-IsOnce n (i + 1) (omega (arith, l)) in
      elim (Bool-cases (is_live (bag.keys i))) [
        | inl live ↦ rw live (
          λ v m.
              let (j, a, b, c, d, e) = each_from_sound bag n (i + 1) (bag.keys i) v m in
              let same = h.table.single i j (omega (arith, l)) (omega (arith, b, l)) live (sym d) in
              omega (arith, same, a),
          rest,
        )
        | inr dead ↦ rw dead rest
      ]

  each_lem : (k v : ℕ) → ((k, v) ∈ each bag) ↔ ((f k ≡ v) × (0 < v))
  unfolding each
  each_lem k v = (
    λ m.
        let (j, a, b, c, d, e) = each_from_sound bag bag.capacity 0 k v m in
        let s = h.table.stored j (omega (arith, b)) c in
        let w : f k ≡ bag.vals j = ap f (sym d) ∙ s.0 in (w ∙ e, omega (arith, e, s.1)),
    λ q.
        let p : 0 < f k = omega (arith, q.0, q.1) in
        let l = h.table.located k p in
        let slot = walk bag.capacity (home bag.capacity k) l.steps in
        let inside = walk-lt bag.capacity (home bag.capacity k) l.steps l.inside in
        let live : is_live (bag.keys slot) ≡ true = ap is_live l.stands ∙ h.table.only k p in
        let counted : bag.vals slot ≡ v =
          sym (h.table.stored slot inside live).0 ∙ ap f l.stands ∙ q.0 in
        subst (λ x. (x, v) ∈ each_from bag.capacity 0 bag) l.stands
          (subst (λ x. (bag.keys slot, x) ∈ each_from bag.capacity 0 bag) counted
            (each_from_complete bag bag.capacity 0 slot (omega arith) (omega (arith, inside))
              live)),
  )

-- How a bag answers a sequence of calls, and what `each` visits after it.
pub record IsMultiset (cs : List BagCall) : Type 0 where
  pub out : RootBag
  pub returns : calls cs new_bag ≡ some (answers cs (λ _. 0), out)
  pub visits : (k v : ℕ) → ((k, v) ∈ each out) ↔ ((tally cs (λ _. 0) k ≡ v) × (0 < v))
  pub once : IsOnce (each out)

-- Fewer than 2^32 calls of `add` and `removeOne` on a new bag, with keys other than the two that mark slots,
-- all return. `removeOne` answers whether the multiset of what was added and not yet removed holds the key,
-- and afterwards `each` visits each key of the multiset once, with its count, and no other.
pub calls-IsMultiset : (cs : List BagCall) → AreKeys cs → length cs < 2 ^ 32 → IsMultiset cs
unfolding each
calls-IsMultiset cs v l =
    let r =
      calls-Runs cs new_bag (λ _. 0) 0 new_bag-Holds v (λ k. omega arith) (omega (arith, l)) in
    record {
      out = r.out;
      returns = r.returns;
      visits = each_lem r.out (tally cs (λ _. 0)) r.holds;
      once = each_from-IsOnce r.out (tally cs (λ _. 0)) r.holds r.out.capacity 0 (omega arith);
    }
