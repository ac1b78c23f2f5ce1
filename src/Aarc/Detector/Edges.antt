-- ===== src/Aarc/Detector/Edges.antt =====
-- The round that follows an edge to a slot that is discovered, or not valid.
use loxis_programming_langua.Prelude.{
  update_self, update_ne, ℕ, ◌+◌, ◌<◌, ◌≡◌, refl, sym, inl, inr, true, false, List, ◌∷◌, arith, ltb,
  ◌==◌, Bool-cases, ltb→lt, update, get_elem?, some,
}
use loxis_programming_langua.Aarc.Cells.{ObjHandle, CellPool, pool_valid}
use loxis_programming_langua.Aarc.Detector.{CycleDetector, follow}
use loxis_programming_langua.Aarc.Detector.Graph.{Edge, Reach}
use loxis_programming_langua.Aarc.Detector.Layers.{
  Meets, Node, Open, Layers, Layers-Open, Explored-next,
}
use loxis_programming_langua.Aarc.Detector.Steps.{Lowers, Meets-least, Layers-advance}
use loxis_programming_langua.Aarc.Detector.Inv.{Listing, Inv}

module _ {pool : CellPool} {outs : ℕ → List ObjHandle} {From Before : ℕ → Type 0}
    {d : CycleDetector} where
  pub Listing-links :
      (low : ℕ → ℕ) (fs : List (ℕ × ℕ))
      → Listing pool outs From Before d
      → Listing pool outs From Before (record d { low = low; frames = fs })
  Listing-links low fs l = record {
    counted = l.counted;
    early = l.early;
    fresh = l.fresh;
    unnamed = l.unnamed;
    inside = l.inside;
    sound = l.sound;
    since = l.since;
    listed = l.listed;
    found = l.found;
    distinct = l.distinct;
  }

  pub Inv-links :
      (low : ℕ → ℕ) (fs : List (ℕ × ℕ))
      → Layers pool outs d.disc low d.on d.tarjan fs
      → Inv pool outs From Before d
      → Inv pool outs From Before (record d { low = low; frames = fs })
  Inv-links low fs s i = record {
    listing = Listing-links low fs i.listing;
    few = i.few;
    stack = i.stack;
    layers = s;
    components = record {
      ids = i.components.ids;
      edges = i.components.edges;
      connected = i.components.connected;
    };
  }

module _ (pool : CellPool) (outs : ℕ → List ObjHandle) (From Before : ℕ → Type 0)
    (d : CycleDetector) (i : Inv pool outs From Before d) (u k : ℕ) (fs : List (ℕ × ℕ))
    (top : d.frames ≡ (u, k) ∷ fs) (h : ObjHandle) (stands : get_elem? (outs u) k ≡ some h) where
  old : Layers pool outs d.disc d.low d.on d.tarjan ((u, k) ∷ fs)
  old = rw top at i.layers

  Open-top : Open pool outs d.disc d.low d.on u k
  Open-top = Layers-Open pool outs d.disc d.low d.on old

  Inv-edge :
      (low : ℕ → ℕ)
      → Lowers pool outs d.disc d.on u d.low low
      → Node pool outs d.disc low d.on u
      → (pool_valid pool h ≡ true → Meets pool outs d.disc low d.on u h.index)
      → Inv pool outs From Before (record d { low = low; frames = (u, k + 1) ∷ fs })
  Inv-edge low m node meets =
      Inv-links low _
        (Layers-advance pool outs d.disc d.on m
          (record {
            node = node;
            explored = Explored-next pool outs d.disc low d.on u k h stands meets (λ j g l s v.
                Meets-least pool outs d.disc d.on m g.index (Open-top.explored j g l s v));
          })
          old)
        i

  stays : Lowers pool outs d.disc d.on u d.low d.low
  stays = record { least = omega arith; others = λ x n. refl }

  -- The handle is not valid: the edge is passed over.
  pub Inv-skip :
      pool_valid pool h ≡ false → Inv pool outs From Before (record d { frames = (u, k + 1) ∷ fs })
  Inv-skip e = Inv-edge d.low stays Open-top.node (λ t. absurd (ground (arith, t, e)))

  -- The slot is discovered.
  pub Inv-follow :
      pool_valid pool h ≡ true
      → 0 < d.disc h.index
      → Inv pool outs From Before (follow u h.index (record d { frames = (u, k + 1) ∷ fs }))
  unfolding follow
  Inv-follow e p = elim (Bool-cases (d.on h.index)) [
    | inl stacked ↦ elim (Bool-cases (ltb (d.disc h.index) (d.low u))) [
      | inl lower ↦
          let found : (d.disc h.index == 0) ≡ false = ground (arith, p) in
          rw (found, stacked, lower)
            (Inv-edge _
              (record {
                least = omega (arith, self, ltb→lt _ _ lower);
                others = λ x n. update_ne d.low u x _ (λ w. n (sym w));
              })
              (record {
                stacked = Open-top.node.stacked;
                found = Open-top.node.found;
                bounded = omega (arith, self, ltb→lt _ _ lower, Open-top.node.bounded);
                end = h.index;
                end_on = stacked;
                end_disc = sym self;
                end_found = p;
                end_reached = Reach.step Reach.here edge;
              })
              (λ _. inr (stacked, omega (arith, self))))
      | inr higher ↦
          let found : (d.disc h.index == 0) ≡ false = ground (arith, p) in
          rw (found, stacked, higher)
            (Inv-edge d.low stays Open-top.node (λ _. inr (stacked, ground (arith, higher))))
    ]
    | inr off ↦
        let found : (d.disc h.index == 0) ≡ false = ground (arith, p) in
        rw (found, off) (Inv-edge d.low stays Open-top.node (λ _. inl (p, off)))
  ]
    where
      self : update d.low u (d.disc h.index) u ≡ d.disc h.index
      self = update_self d.low u (d.disc h.index)

      edge : Edge pool outs u h.index
      edge = record { place = k; handle = h; stands = stands; live = e; leads = refl }
