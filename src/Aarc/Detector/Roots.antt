-- ===== src/Aarc/Detector/Roots.antt =====
-- The loop of `findComponents` over the roots: each live root is discovered, and what was found stays found.
use loxis_programming_langua.Prelude.{
  update_self, sum_below, ℕ, zero, suc, ◌+◌, ◌^◌, ◌≤◌, ◌<◌, ◌≡◌, refl, ◌⊎◌, inl, inr, true, List,
  [], ◌∷◌, arith, ◌==◌, Bool-cases, ==_iff, some,
}
use loxis_programming_langua.Aarc.Cells.{ObjHandle, CellPool, is_live_at, is_live_at_inside}
use loxis_programming_langua.Aarc.Detector.{CycleDetector, visit_from, visit_roots}
use loxis_programming_langua.Aarc.Detector.Graph.{Edge}
use loxis_programming_langua.Aarc.Detector.Layers.{◌∈◌}
use loxis_programming_langua.Aarc.Detector.Inv.{undone, Listing, Inv}
use loxis_programming_langua.Aarc.Detector.Enter.{entered, entered_undone, time_below, Inv-root}
use loxis_programming_langua.Aarc.Detector.Loop.{
  rounds, Visits, visit_loop-entered, visit_loop-Visits,
}

sum_below-undone :
    (n : ℕ) (weight disc : ℕ → ℕ) → sum_below n (undone weight disc) ≤ sum_below n weight
sum_below-undone zero weight disc = omega arith
sum_below-undone (suc n) weight disc = ground (arith, sum_below-undone n weight disc)

module _ (pool : CellPool) (outs : ℕ → List ObjHandle) (From : ℕ → Type 0) where
  Listing-since :
      {Before : ℕ → Type 0} {d : CycleDetector} (After : ℕ → Type 0)
      → ((v : ℕ) → After v → 0 < d.disc v)
      → Listing pool outs From Before d
      → Listing pool outs From After d
  Listing-since After h l = record {
    counted = l.counted;
    early = l.early;
    fresh = l.fresh;
    unnamed = l.unnamed;
    inside = l.inside;
    sound = l.sound;
    since = h;
    listed = l.listed;
    found = l.found;
    distinct = l.distinct;
  }

  -- What was found earlier may be named anew.
  Inv-since :
      {Before : ℕ → Type 0} {d : CycleDetector} (After : ℕ → Type 0)
      → ((v : ℕ) → After v → 0 < d.disc v)
      → Inv pool outs From Before d
      → Inv pool outs From After d
  Inv-since After h i = record {
    listing = Listing-since After h i.listing;
    few = i.few;
    stack = i.stack;
    layers = i.layers;
    components = i.components;
  }

  -- The counters of skipped roots are no part of it.
  Inv-skipped :
      {Before : ℕ → Type 0} {d : CycleDetector} (m n : ℕ)
      → Inv pool outs From Before d
      → Inv pool outs From Before (record d { skipped_disc = m; skipped_dead = n })
  Inv-skipped m n i = record {
    listing = record {
      counted = i.listing.counted;
      early = i.listing.early;
      fresh = i.listing.fresh;
      unnamed = i.listing.unnamed;
      inside = i.listing.inside;
      sound = i.listing.sound;
      since = i.listing.since;
      listed = i.listing.listed;
      found = i.listing.found;
      distinct = i.listing.distinct;
    };
    few = i.few;
    stack = i.stack;
    layers = i.layers;
    components = record {
      ids = i.components.ids;
      edges = i.components.edges;
      connected = i.components.connected;
    };
  }

  module _ (follows : (u v : ℕ) → From u → Edge pool outs u v → From v)
      (small : pool.capacity < 2 ^ 32) (fuel : ℕ)
      (enough : sum_below pool.capacity (rounds pool outs) ≤ fuel) where
    -- A live root that is not discovered yet.
    visit_from-Visits :
        (Before : ℕ → Type 0) (root : ℕ) (d : CycleDetector)
        → From root
        → d.disc root ≡ 0
        → is_live_at pool root ≡ true
        → d.frames ≡ []
        → Inv pool outs From Before d
        → Visits pool outs From
            (λ v. Before v ⊎ (v ≡ root))
            follows
            small
            fuel
            (record d { frames = (root, 0) ∷ [] })
    visit_from-Visits Before root d from new live idle i =
        let within = is_live_at_inside pool root live in
        let weight = entered_undone pool outs From Before d i root new within (rounds pool outs) in
        let total = sum_below-undone pool.capacity (rounds pool outs) d.disc in
        visit_loop-entered pool outs From _ follows small fuel d root [] new
          (omega (arith, time_below pool outs From Before d i root new within, small))
          (omega (arith, weight, total, enough))
          (visit_loop-Visits pool outs From _ follows small fuel _ _ refl
            (Inv-since _ (λ v b. found v b)
              (Inv-root pool outs From Before d i root new within from idle))
            (omega (arith, weight, total, enough)))
      where
        found : (v : ℕ) → Before v ⊎ (v ≡ root) → 0 < (entered d root ((root, 0) ∷ [])).disc v
        found v (inl b) = ground (arith, i.listing.since v b)
        found v (inr e) = rw (e, update_self d.disc root (d.time + 1)) (omega arith)

    pub record Covers (roots : List ℕ) (Before : ℕ → Type 0) (d : CycleDetector) : Type 0 where
      pub out : CycleDetector
      pub returns : visit_roots pool outs fuel roots d ≡ some out
      pub inv : Inv pool outs From Before out
      pub idle : out.frames ≡ []
      pub covered : (r : ℕ) → r ∈ roots → is_live_at pool r ≡ true → 0 < out.disc r

    pub visit_roots-Covers :
        (roots : List ℕ) (Before : ℕ → Type 0) (d : CycleDetector)
        → ((r : ℕ) → r ∈ roots → is_live_at pool r ≡ true → From r)
        → d.frames ≡ []
        → Inv pool outs From Before d
        → Covers roots Before d
    unfolding visit_roots visit_from
    visit_roots-Covers [] Before d from idle i = record {
      out = d;
      returns = refl;
      inv = i;
      idle = idle;
      covered = λ r m. absurd m;
    }
    visit_roots-Covers (root ∷ roots) Before d from idle i = elim (Bool-cases (d.disc root == 0)) [
      | inr found ↦
          let c =
            visit_roots-Covers roots (λ v. 0 < d.disc v)
              (record d { skipped_disc = d.skipped_disc + 1 }) (λ r m. from r (inr m)) idle
              (Inv-skipped _ _ (Inv-since _ (λ v p. p) i)) in
          record {
            out = c.out;
            returns = rw found c.returns;
            inv = Inv-since Before (λ v b. c.inv.listing.since v (i.listing.since v b)) c.inv;
            idle = c.idle;
            covered = λ r m live. elim m [
              | inl e ↦ c.inv.listing.since r (rw e (ground (arith, found)))
              | inr rest ↦ c.covered r rest live
            ];
          }
      | inl new ↦ elim (Bool-cases (is_live_at pool root)) [
        | inr dead ↦
            let c =
              visit_roots-Covers roots Before (record d { skipped_dead = d.skipped_dead + 1 })
                (λ r m. from r (inr m)) idle (Inv-skipped _ _ i) in
            record {
              out = c.out;
              returns = rw (new, dead) c.returns;
              inv = c.inv;
              idle = c.idle;
              covered = λ r m live. elim m [
                | inl e ↦ absurd (ground (arith, dead, rw e at live))
                | inr rest ↦ c.covered r rest live
              ];
            }
        | inl live ↦
            let v =
              visit_from-Visits Before root d (from root (inl refl) live) ((==_iff _ _).0 new) live
                idle i in
            let c =
              visit_roots-Covers roots (λ x. 0 < v.out.disc x) v.out (λ r m. from r (inr m)) v.over
                (Inv-since _ (λ x p. p) v.inv) in
            record {
              out = c.out;
              returns = rw (new, live, idle, v.returns) c.returns;
              inv =
                  Inv-since Before (λ x b. c.inv.listing.since x (v.inv.listing.since x (inl b)))
                    c.inv;
              idle = c.idle;
              covered = λ r m alive. elim m [
                | inl e ↦ c.inv.listing.since r (v.inv.listing.since r (inr e))
                | inr rest ↦ c.covered r rest alive
              ];
            }
      ]
    ]
