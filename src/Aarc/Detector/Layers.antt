-- ===== src/Aarc/Detector/Layers.antt =====
-- The two stacks of the finder side by side: the open nodes stand in the node stack in the frames' order,
-- and above each of them the finished nodes that its frame has reached.
use loxis_programming_langua.Prelude.{
  ℕ, ◌+◌, ◌≤◌, ◌<◌, ◌≡◌, sym, subst, ◌⊎◌, inl, inr, Bool, true, false, some, List, [], ◌∷◌,
  get_elem?, arith, Bool-cases, ==_iff, ◌==◌, ap, ◌∙◌,
}
use loxis_programming_langua.Aarc.Cells.{ObjHandle, CellPool, pool_valid}
use loxis_programming_langua.Aarc.Detector.Graph.{Edge, Reach}

abbrev pub All {ℓ κ} : {A : Type ℓ} → (A → Type κ) → List A → Type κ
All P [] = Unit
All P (x ∷ xs) = P x × All P xs

pub All-map {ℓ κ} :
    {A : Type ℓ} {P Q : A → Type κ} → ((a : A) → P a → Q a) → (xs : List A) → All P xs → All Q xs
All-map f [] h = tt
All-map f (x ∷ xs) h = (f x h.0, All-map f xs h.1)

infix 40 ◌∈◌
abbrev pub ◌∈◌ : ℕ → List ℕ → Type 0
v ∈ [] = ⊥
v ∈ x ∷ xs = (v ≡ x) ⊎ (v ∈ xs)

pub All-at : (P : ℕ → Type 0) (xs : List ℕ) → All P xs → (v : ℕ) → v ∈ xs → P v
All-at P [] h v m = absurd m
All-at P (x ∷ xs) h v (inl e) = subst P (sym e) h.0
All-at P (x ∷ xs) h v (inr m) = All-at P xs h.1 v m

pub some-injective : {A : Type 0} {a b : A} → some a ≡ some b → a ≡ b
some-injective e = ground (arith, e)

module _ (pool : CellPool) (outs : ℕ → List ObjHandle) where
  -- Each open node is reached from the one below it.
  abbrev pub Leads : List (ℕ × ℕ) → ℕ → Type 0
  Leads [] u = Unit
  Leads ((p, _) ∷ _) u = Reach pool outs p u

  module _ (disc low : ℕ → ℕ) (on : ℕ → Bool) where
    abbrev pub IsClosed : ℕ → Type 0
    IsClosed v = (0 < disc v) × (on v ≡ false)

    -- What an edge from `w` to `v` that was followed found.
    abbrev pub Meets : ℕ → ℕ → Type 0
    Meets w v = IsClosed v ⊎ (on v ≡ true) × (low w ≤ disc v)

    -- A node on the stack: its low-link is the time of a node on the stack that it reaches.
    pub record Node (w : ℕ) : Type 0 where
      pub stacked : on w ≡ true
      pub found : 0 < disc w
      pub bounded : low w ≤ disc w
      pub end : ℕ
      pub end_on : on end ≡ true
      pub end_disc : disc end ≡ low w
      pub end_found : 0 < disc end
      pub end_reached : Reach pool outs w end

    abbrev pub Explored : ℕ → ℕ → Type 0
    Explored u k =
        (j : ℕ) (h : ObjHandle)
        → j < k
        → get_elem? (outs u) j ≡ some h
        → pool_valid pool h ≡ true
        → Meets u h.index

    -- One edge more is explored.
    pub Explored-next :
        (u k : ℕ) (h : ObjHandle)
        → get_elem? (outs u) k ≡ some h
        → (pool_valid pool h ≡ true → Meets u h.index)
        → Explored u k
        → Explored u (k + 1)
    Explored-next u k h stands m before j g l s v = elim (Bool-cases (j == k)) [
      | inl e ↦
          let same : h ≡ g =
            some-injective (sym stands ∙ ap (get_elem? (outs u)) (sym ((==_iff j k).0 e)) ∙ s) in
          subst (λ x. Meets u x.index) same (m (ap (pool_valid pool) same ∙ v))
      | inr e ↦ before j g (ground arith) s v
    ]

    pub record Open (u k : ℕ) : Type 0 where
      pub node : Node u
      pub explored : Explored u k

    -- A finished node above the open node `u`.
    pub record Held (u w : ℕ) : Type 0 where
      pub node : Node w
      pub lower : low w < disc w
      pub folded : low u ≤ low w
      pub after : disc u < disc w
      pub reached : Reach pool outs u w
      pub explored : (v : ℕ) → Edge pool outs w v → Meets w v

    abbrev pub Below : ℕ → List ℕ → Type 0
    Below b t = All (λ x. disc x < b) t

    pub data Layers : List ℕ → List (ℕ × ℕ) → Type 0 where
      nothing : Layers [] []
      opened :
          {u k : ℕ} {t : List ℕ} {fs : List (ℕ × ℕ)}
          → Open u k
          → Below (disc u) t
          → Leads fs u
          → Layers t fs
          → Layers (u ∷ t) ((u, k) ∷ fs)
      held :
          {w u k : ℕ} {t : List ℕ} {fs : List (ℕ × ℕ)}
          → Held u w
          → Below (disc w) t
          → Layers t ((u, k) ∷ fs)
          → Layers (w ∷ t) ((u, k) ∷ fs)

    pub Layers-found : {t : List ℕ} {fs : List (ℕ × ℕ)} → Layers t fs → All (λ w. 0 < disc w) t
    Layers-found nothing = tt
    Layers-found (opened o b l s) = (o.node.found, Layers-found s)
    Layers-found (held h b s) = (h.node.found, Layers-found s)

    pub Layers-on : {t : List ℕ} {fs : List (ℕ × ℕ)} → Layers t fs → (v : ℕ) → v ∈ t → on v ≡ true
    Layers-on nothing v m = absurd m
    Layers-on (opened o b l s) v (inl e) = rw e o.node.stacked
    Layers-on (opened o b l s) v (inr m) = Layers-on s v m
    Layers-on (held h b s) v (inl e) = rw e h.node.stacked
    Layers-on (held h b s) v (inr m) = Layers-on s v m

    -- The top frame's node is on the stack.
    pub Layers-top :
        {t : List ℕ} {fs : List (ℕ × ℕ)} {u k : ℕ} (Q : ℕ → Type 0)
        → Layers t ((u, k) ∷ fs)
        → All Q t
        → Q u
    Layers-top Q (opened o b l s) q = q.0
    Layers-top Q (held h b s) q = Layers-top Q s q.1

    pub Layers-Open : {t : List ℕ} {fs : List (ℕ × ℕ)} {u k : ℕ} → Layers t ((u, k) ∷ fs) → Open u k
    Layers-Open (opened o b l s) = o
    Layers-Open (held h b s) = Layers-Open s

    -- A node on the stack is the top frame's, is held by it, or is older.
    pub Layers-cases :
        {t : List ℕ} {fs : List (ℕ × ℕ)} {u k : ℕ}
        → Layers t ((u, k) ∷ fs)
        → (v : ℕ) → v ∈ t
        → (v ≡ u) ⊎ Held u v ⊎ (disc v < disc u)
    Layers-cases (opened o b l s) v (inl e) = inl e
    Layers-cases (opened o b l s) v (inr m) = inr (inr (All-at _ _ b v m))
    Layers-cases (held h b s) v (inl e) = inr (inl (rw e h))
    Layers-cases (held h b s) v (inr m) = Layers-cases s v m
