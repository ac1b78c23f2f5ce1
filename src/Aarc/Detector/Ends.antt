-- ===== src/Aarc/Detector/Ends.antt =====
-- The end of `findComponents`, from clean scratch arrays and with enough fuel.
use loxis_programming_langua.Prelude.{
  sum_below, ℕ, zero, suc, ◌^◌, ◌≤◌, ◌<◌, ◌≡◌, refl, ◌↔◌, ◌⊎◌, inl, inr, true, false, List, [], ◌∷◌,
  arith, ◌==◌, Bool-cases, ==_iff, some,
}
use loxis_programming_langua.Aarc.Cells.{ObjHandle, CellPool, is_live_at}
use loxis_programming_langua.Aarc.Detector.{
  CycleDetector, unvisited, find_components, release_visited,
}
use loxis_programming_langua.Aarc.Detector.Graph.{Edge, Reach, here, step}
use loxis_programming_langua.Aarc.Detector.Layers.{◌∈◌, IsClosed, Layers, nothing}
use loxis_programming_langua.Aarc.Detector.Inv.{undone, Distinct, Components, Listing, Inv}
use loxis_programming_langua.Aarc.Detector.Loop.{rounds}
use loxis_programming_langua.Aarc.Detector.Roots.{Covers, visit_roots-Covers}

-- The scratch arrays as a search expects them.
pub record IsClean (d : CycleDetector) : Type 0 where
  pub discs : (v : ℕ) → d.disc v ≡ 0
  pub ons : (v : ℕ) → d.on v ≡ false
  pub sccs : (v : ℕ) → d.scc v ≡ unvisited

sum_below_all : (n : ℕ) (f : ℕ → ℕ) → ((i : ℕ) → f i ≡ 1) → sum_below n f ≡ n
sum_below_all zero f h = refl
sum_below_all (suc n) f h = omega (arith, h n, sum_below_all n f h)

release_reset :
    (vs : List ℕ) (d : CycleDetector)
    → ((v : ℕ) → v ∈ vs ⊎ ((d.disc v ≡ 0) × (d.on v ≡ false) × (d.scc v ≡ unvisited)))
    → IsClean (release_visited vs d)
unfolding release_visited
release_reset [] d h = record {
  discs = λ v. ground (arith, h v);
  ons = λ v. ground (arith, h v);
  sccs = λ v. ground (arith, h v);
}
release_reset (i ∷ vs) d h = release_reset vs _ (λ v. elim (Bool-cases (i == v)) [
  | inl e ↦ inr (rw e (refl, refl, refl))
  | inr e ↦ elim (h v) [
    | inl m ↦ elim m [ inl same ↦ absurd (ground (arith, same, e)) | inr rest ↦ inl rest ]
    | inr clean ↦ inr (rw e clean)
  ]
])

module _ (pool : CellPool) (outs : ℕ → List ObjHandle) (roots : List ℕ) where
  -- A live root reaches the slot.
  pub record FromRoot (v : ℕ) : Type 0 where
    pub root : ℕ
    pub member : root ∈ roots
    pub live : is_live_at pool root ≡ true
    pub reached : Reach pool outs root v

  pub FromRoot-step : (u v : ℕ) → FromRoot u → Edge pool outs u v → FromRoot v
  FromRoot-step u v f e = record {
    root = f.root;
    member = f.member;
    live = f.live;
    reached = step f.reached e;
  }

  -- The rounds that suffice: one for each slot of the pool and one for each outgoing handle.
  abbrev pub enough : ℕ
  enough = sum_below pool.capacity (rounds pool outs)

  pub record Finds (fuel : ℕ) (d : CycleDetector) : Type 0 where
    pub out : CycleDetector
    pub returns : find_components pool outs fuel roots d ≡ some out
    pub once : Distinct out.visited
    pub exact : (v : ℕ) → (v ∈ out.visited) ↔ FromRoot v
    pub named : (v : ℕ) → v ∈ out.visited → out.scc v < out.comps
    pub others : (v : ℕ) → ¬ (v ∈ out.visited) → out.scc v ≡ unvisited
    pub released : IsClean (release_visited out.visited out)

  pub record Ends (fuel : ℕ) (d : CycleDetector) : Type 0 where
    pub finds : Finds fuel d
    pub closed :
        (v : ℕ)
        → v ∈ finds.out.visited
        → IsClosed pool outs finds.out.disc finds.out.low finds.out.on v
    pub components : Components pool outs finds.out

  module _ (small : pool.capacity < 2 ^ 32) (fuel : ℕ) (lasts : enough ≤ fuel) (d : CycleDetector)
      (clean : IsClean d) where
    abbrev start : CycleDetector
    start = record d {
      visited = [];
      time = 0;
      comps = 0;
      tarjan = [];
      frames = [];
      skipped_disc = 0;
      skipped_dead = 0;
    }

    start-Inv : Inv pool outs FromRoot (λ _. ⊥) start
    start-Inv = record {
      listing = record {
        counted = omega (
          arith,
          sum_below_all pool.capacity (undone (λ _. 1) d.disc) (λ i. rw (clean.discs i) refl),
        );
        early = λ v. omega (arith, clean.discs v);
        fresh = λ v z. clean.ons v;
        unnamed = λ v z. clean.sccs v;
        inside = λ v p. absurd (omega (arith, clean.discs v, p));
        sound = λ v p. absurd (omega (arith, clean.discs v, p));
        since = λ v b. absurd b;
        listed = λ v p. absurd (omega (arith, clean.discs v, p));
        found = λ v m. absurd m;
        distinct = tt;
      };
      few = omega arith;
      stack = λ v o. absurd (ground (arith, o, clean.ons v));
      layers = nothing;
      components = record {
        ids = λ v c. absurd (omega (arith, clean.discs v, c.0));
        edges = λ w v c e. absurd (omega (arith, clean.discs w, c.0));
        connected = λ v w c c'. absurd (omega (arith, clean.discs v, c.0));
      };
    }

    run : Covers pool outs FromRoot FromRoot-step small fuel lasts roots (λ _. ⊥) start
    run =
        visit_roots-Covers pool outs FromRoot FromRoot-step small fuel lasts roots (λ _. ⊥) start
          (λ r m live. record { root = r; member = m; live = live; reached = here }) refl start-Inv

    pub find_components-Ends : Ends fuel d
    unfolding find_components
    find_components-Ends = record {
      finds = record {
        out = run.out;
        returns = run.returns;
        once = listing.distinct;
        exact = λ v. (
          λ m. listing.sound v (listing.found v m),
          λ f. listing.listed v (reaches f.reached (run.covered f.root f.member f.live)),
        );
        named = λ v m. run.inv.components.ids v (closed v (listing.found v m));
        others = λ v n. listing.unnamed v (unfound v n);
        released = release_reset run.out.visited run.out (λ v. settled v);
      };
      closed = λ v m. closed v (listing.found v m);
      components = run.inv.components;
    }
      where
        listing : Listing pool outs FromRoot (λ _. ⊥) run.out
        listing = run.inv.listing

        empty_stack :
            (t : List ℕ)
            → Layers pool outs run.out.disc run.out.low run.out.on t []
            → (v : ℕ) → ¬ (v ∈ t)
        empty_stack [] nothing v m = m
        empty_stack (_ ∷ _) s v m = elim s [ ]

        off : (v : ℕ) → run.out.on v ≡ false
        off v = elim (Bool-cases (run.out.on v)) [
          | inl o ↦
              absurd
                (empty_stack run.out.tarjan (rw run.idle at run.inv.layers) v (run.inv.stack v o))
          | inr o ↦ o
        ]

        closed :
            (v : ℕ) → 0 < run.out.disc v → IsClosed pool outs run.out.disc run.out.low run.out.on v
        closed v p = (p, off v)

        reaches : {u v : ℕ} → Reach pool outs u v → 0 < run.out.disc u → 0 < run.out.disc v
        reaches here p = p
        reaches (step {v = w} r e) p = (run.inv.components.edges w _ (closed w (reaches r p)) e).0.0

        unfound : (v : ℕ) → ¬ (v ∈ run.out.visited) → run.out.disc v ≡ 0
        unfound v n = elim (Bool-cases (run.out.disc v == 0)) [
          | inl e ↦ (==_iff _ _).0 e
          | inr e ↦ absurd (n (listing.listed v (ground (arith, e))))
        ]

        settled :
            (v : ℕ)
            → v ∈ run.out.visited
              ⊎ ((run.out.disc v ≡ 0) × (run.out.on v ≡ false) × (run.out.scc v ≡ unvisited))
        settled v = elim (Bool-cases (run.out.disc v == 0)) [
          | inl e ↦ let z = (==_iff (run.out.disc v) 0).0 e in inr (z, off v, listing.unnamed v z)
          | inr e ↦ inl (listing.listed v (ground (arith, e)))
        ]
