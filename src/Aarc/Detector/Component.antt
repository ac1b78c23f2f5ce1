-- ===== src/Aarc/Detector/Component.antt =====
-- The component that `finishNode` closes: what it pops is connected, and no edge leaves it but to what was
-- closed before.
use loxis_programming_langua.Prelude.{
  ℕ, zero, suc, ◌+◌, ◌≤◌, ◌<◌, ◌≡◌, refl, sym, subst, ◌∙◌, ◌⊎◌, inl, inr, true, List, [], ◌∷◌,
  arith, get_elem?, some, none,
}
use loxis_programming_langua.Aarc.Cells.{ObjHandle, CellPool}
use loxis_programming_langua.Aarc.Detector.{CycleDetector}
use loxis_programming_langua.Aarc.Detector.Graph.{Edge, Reach, Reach_trans}
use loxis_programming_langua.Aarc.Detector.Layers.{
  All-at, IsClosed, Meets, Open, Layers, Layers-Open,
}
use loxis_programming_langua.Aarc.Detector.Moves.{Agree, Layers-agree}
use loxis_programming_langua.Aarc.Detector.Close.{Popped, Closes, close_component-Closes}
use loxis_programming_langua.Aarc.Detector.Inv.{Components, Inv}

get_elem?_beyond {ℓ} :
    {A : Type ℓ} (xs : List A) (k j : ℕ) (a : A)
    → get_elem? xs k ≡ none
    → get_elem? xs j ≡ some a
    → j < k
get_elem?_beyond [] k j a n s = absurd (ground (arith, s))
get_elem?_beyond (x ∷ xs) zero j a n s = absurd (ground (arith, n))
get_elem?_beyond (x ∷ xs) (suc k) zero a n s = omega arith
get_elem?_beyond (x ∷ xs) (suc k) (suc j) a n s = omega (arith, get_elem?_beyond xs k j a n s)

module _ (pool : CellPool) (outs : ℕ → List ObjHandle) (From Before : ℕ → Type 0)
    (d : CycleDetector) (i : Inv pool outs From Before d) (u k : ℕ) where
  open i use {listing, few, stack, layers, components}

  module _ (fs : List (ℕ × ℕ)) (top : d.frames ≡ (u, k) ∷ fs)
      (ended : get_elem? (outs u) k ≡ none) where
    pub old : Layers pool outs d.disc d.low d.on d.tarjan ((u, k) ∷ fs)
    old = rw top at layers

    pub Open-top : Open pool outs d.disc d.low d.on u k
    Open-top = Layers-Open pool outs d.disc d.low d.on old

    pub all_edges : (v : ℕ) → Edge pool outs u v → Meets pool outs d.disc d.low d.on u v
    all_edges v e = subst (Meets pool outs d.disc d.low d.on u) e.leads (
        Open-top.explored e.place e.handle
          (get_elem?_beyond (outs u) k e.place e.handle ended e.stands) e.stands e.live)

    module _ (closing : d.low u ≡ d.disc u) where
      pub closes : Closes pool outs d.disc d.low d.on u fs d.tarjan (record d { frames = fs })
      closes = close_component-Closes pool outs d.disc d.low d.on old (record d { frames = fs })

      open closes use {on', scc', rest, returns, below, fewer, split}

      -- A node on the stack that is no older than `u` is popped.
      young-Popped :
          (v : ℕ)
          → d.on v ≡ true
          → d.disc u ≤ d.disc v
          → Popped pool outs d.disc d.low d.on u d.comps on' scc' v
      young-Popped v o l = elim (split v) [
        | inl p ↦ p
        | inr kept ↦ absurd (omega (arith, l, All-at _ rest below v (kept.still (stack v o))))
      ]

      Popped-age :
          (v : ℕ)
          → Popped pool outs d.disc d.low d.on u d.comps on' scc' v
          → (d.disc u ≤ d.disc v)
            × (d.low u ≤ d.low v)
            × (d.on v ≡ true)
            × (0 < d.disc v)
            × Reach pool outs u v
      Popped-age v p = elim p.member [
        | inl e ↦
            rw e (omega arith, omega arith, Open-top.node.stacked, Open-top.node.found, Reach.here)
        | inr h ↦ (omega (arith, h.after), h.folded, h.node.stacked, h.node.found, h.reached)
      ]

      -- A popped node reaches `u`, by the times of the nodes that it links to.
      Popped-back :
          (bound v : ℕ)
          → d.disc v < bound
          → Popped pool outs d.disc d.low d.on u d.comps on' scc' v
          → Reach pool outs v u
      Popped-back zero v l p = elim l [ ]
      Popped-back (suc bound) v l p = elim p.member [
        | inl e ↦ rw e Reach.here
        | inr h ↦ Reach_trans pool outs h.node.end_reached (
            Popped-back bound h.node.end (omega (arith, l, h.lower, h.node.end_disc)) (
              young-Popped h.node.end h.node.end_on
                (omega (arith, h.node.end_disc, h.folded, closing))))
      ]

      Popped-edges :
          (w v : ℕ)
          → Popped pool outs d.disc d.low d.on u d.comps on' scc' w
          → Edge pool outs w v
          → Meets pool outs d.disc d.low d.on w v
      Popped-edges w v p e = elim p.member [
        | inl s ↦ rw s (all_edges v (rw s at e))
        | inr h ↦ h.explored v e
      ]

      abbrev pub closed : CycleDetector
      closed = record d { frames = fs; tarjan = rest; on = on'; scc = scc'; comps = d.comps + 1 }

      abbrev Old : ℕ → Type 0
      Old v = IsClosed pool outs d.disc d.low d.on v × (scc' v ≡ d.scc v) × (d.scc v < d.comps)

      New : ℕ → Type 0
      New v = Popped pool outs d.disc d.low d.on u d.comps on' scc' v

      -- A closed node is popped now, or was closed before.
      closed_cases : (v : ℕ) → IsClosed pool outs d.disc d.low on' v → New v ⊎ Old v
      unfolding New
      closed_cases v c = elim (split v) [
        | inl p ↦ inl p
        | inr kept ↦
            let was : IsClosed pool outs d.disc d.low d.on v = (c.0, sym kept.same_on ∙ c.1) in
            inr (was, kept.same_scc, components.ids v was)
      ]

      -- What was closed before stays so, under its name.
      Old-stays :
          (v : ℕ)
          → IsClosed pool outs d.disc d.low d.on v
          → IsClosed pool outs d.disc d.low on' v × (scc' v ≡ d.scc v)
      Old-stays v c = elim (split v) [
        | inl p ↦ absurd (ground (arith, (Popped-age v p).2, c.1))
        | inr kept ↦ ((c.0, kept.same_on ∙ c.1), kept.same_scc)
      ]

      New-stays : (v : ℕ) → New v → IsClosed pool outs d.disc d.low on' v × (scc' v ≡ d.comps)
      unfolding New
      New-stays v p = (((Popped-age v p).3, p.off), p.named)

      edges_closed :
          (w v : ℕ)
          → IsClosed pool outs d.disc d.low on' w
          → Edge pool outs w v
          → IsClosed pool outs d.disc d.low on' v × (scc' v ≤ scc' w)
      unfolding New
      edges_closed w v c e = elim (closed_cases w c) [
        | inr was ↦
            let (cv, le) = components.edges w v was.0 e in
            let stays = Old-stays v cv in (stays.0, omega (arith, stays.1, was.1, le))
        | inl p ↦ elim (Popped-edges w v p e) [
          | inl cv ↦
              let stays = Old-stays v cv in
              (stays.0, omega (arith, stays.1, p.named, components.ids v cv))
          | inr on_stack ↦
              let pv =
                young-Popped v on_stack.0
                  (omega (arith, on_stack.1, (Popped-age w p).1, closing)) in
              let stays = New-stays v pv in (stays.0, omega (arith, stays.1, p.named))
        ]
      ]

      Components-closed : Components pool outs closed
      unfolding New
      Components-closed = record {
        ids = λ v c. elim (closed_cases v c) [
          | inl p ↦ omega (arith, p.named)
          | inr was ↦ omega (arith, was.1, was.2)
        ];
        edges = edges_closed;
        connected = λ v w cv cw e. elim (closed_cases v cv) [
          | inl p ↦ elim (closed_cases w cw) [
            | inl q ↦
                Reach_trans pool outs (Popped-back (d.disc v + 1) v (omega arith) p)
                  (Popped-age w q).4
            | inr was ↦ absurd (omega (arith, e, p.named, was.1, was.2))
          ]
          | inr old_v ↦ elim (closed_cases w cw) [
            | inl q ↦ absurd (omega (arith, e, q.named, old_v.1, old_v.2))
            | inr old_w ↦ components.connected v w old_v.0 old_w.0 (sym old_v.1 ∙ e ∙ old_w.1)
          ]
        ];
      }

      Agree-closed : Agree pool outs (λ x. d.disc x < d.disc u) d.disc d.low d.on d.disc d.low on'
      Agree-closed = record {
        times = λ w q f. refl;
        links = λ w q f. refl;
        stays = λ w q f. same w q;
        older = λ w x q f l. omega (arith, q, l);
        meets = λ w v q f m. elim m [
          | inl c ↦ inl (Old-stays v c).0
          | inr (o, l) ↦ elim (split v) [
            | inl p ↦ inl ((Popped-age v p).3, p.off)
            | inr kept ↦ inr (kept.same_on ∙ o, l)
          ]
        ];
      }
        where
          same : (w : ℕ) → d.disc w < d.disc u → on' w ≡ d.on w
          same w q = elim (split w) [
            | inl p ↦ absurd (omega (arith, q, (Popped-age w p).0))
            | inr kept ↦ kept.same_on
          ]

      pub Inv-closed : Inv pool outs From Before closed
      Inv-closed = record {
        listing = record {
          counted = listing.counted;
          early = listing.early;
          fresh =
              λ v z. elim (split v) [ inl p ↦ p.off | inr kept ↦ kept.same_on ∙ listing.fresh v z ];
          unnamed = λ v z. elim (split v) [
            | inl p ↦ absurd (omega (arith, z, (Popped-age v p).3))
            | inr kept ↦ kept.same_scc ∙ listing.unnamed v z
          ];
          inside = listing.inside;
          sound = listing.sound;
          since = listing.since;
          listed = listing.listed;
          found = listing.found;
          distinct = listing.distinct;
        };
        few = omega (arith, few, fewer);
        stack = λ v o. elim (split v) [
          | inl p ↦ absurd (ground (arith, o, p.off))
          | inr kept ↦ kept.still (stack v (sym kept.same_on ∙ o))
        ];
        layers = Layers-agree pool outs Agree-closed below closes.layers;
        components = Components-closed;
      }
