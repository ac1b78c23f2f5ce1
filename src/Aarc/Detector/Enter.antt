-- ===== src/Aarc/Detector/Enter.antt =====
-- A node that is discovered: the round's first test.
use loxis_programming_langua.Prelude.{
  update_self, update_ne, sum_below, sum_below_change, ℕ, ◌+◌, ◌%◌, ◌^◌, ◌≤◌, ◌<◌, ◌≡◌, refl, sym,
  ap, ◌∙◌, ◌≢◌, inl, inr, Bool, true, false, List, [], ◌∷◌, arith, ◌==◌, Bool-cases, ==_iff, update,
  get_elem?, some,
}
use loxis_programming_langua.Aarc.Cells.{ObjHandle, CellPool, pool_valid}
use loxis_programming_langua.Aarc.Detector.{CycleDetector, discover}
use loxis_programming_langua.Aarc.Detector.Graph.{Edge, Reach}
use loxis_programming_langua.Aarc.Detector.Layers.{
  All, All-map, Layers-found, Layers-top, Explored-next, IsClosed, Leads, Open, Layers, opened,
  Below, Layers-Open,
}
use loxis_programming_langua.Aarc.Detector.Moves.{Agree, Layers-agree}
use loxis_programming_langua.Aarc.Detector.Steps.{Lowers, Layers-advance}
use loxis_programming_langua.Aarc.Detector.Inv.{undone, Components, Listing, Inv}

-- The marks after `v` was discovered.
abbrev pub entered : CycleDetector → ℕ → List (ℕ × ℕ) → CycleDetector
entered d v fs = record d {
  time = d.time + 1;
  disc = update d.disc v (d.time + 1);
  low = update d.low v (d.time + 1);
  on = update d.on v true;
  tarjan = v ∷ d.tarjan;
  visited = v ∷ d.visited;
  frames = fs;
}

pub discover_found : (u : ℕ) (d : CycleDetector) → 0 < d.disc u → discover u d ≡ d
unfolding discover
discover_found u d h = ground arith

pub discover_fresh :
    (v : ℕ) (d : CycleDetector) (fs : List (ℕ × ℕ))
    → d.disc v ≡ 0
    → d.time + 1 < 2 ^ 32
    → discover v (record d { frames = fs }) ≡ entered d v fs
unfolding discover
discover_fresh v d fs e l =
    let same : (d.time + 1) % 2 ^ 32 ≡ d.time + 1 = omega (arith, l) in rw (e, same) refl

module _ (pool : CellPool) (outs : ℕ → List ObjHandle) (From Before : ℕ → Type 0)
    (d : CycleDetector) (i : Inv pool outs From Before d) (v : ℕ) (new : d.disc v ≡ 0)
    (within : v < pool.capacity) where
  open i use {listing, few, stack, layers, components}

  abbrev disc' : ℕ → ℕ
  disc' = update d.disc v (d.time + 1)

  abbrev low' : ℕ → ℕ
  low' = update d.low v (d.time + 1)

  abbrev on' : ℕ → Bool
  on' = update d.on v true

  -- Discovering `v` takes the weight of `v` off the sum over what is not discovered.
  pub entered_undone :
      (weight : ℕ → ℕ)
      → sum_below pool.capacity (undone weight d.disc)
        ≡ sum_below pool.capacity (undone weight (update d.disc v (d.time + 1))) + weight v
  entered_undone weight =
      let change =
        sum_below_change pool.capacity v (undone weight d.disc)
          (undone weight (update d.disc v (d.time + 1))) within
          (λ i n. rw (update_ne d.disc v i (d.time + 1) n) refl) in
      omega (arith, change, self, gone)
    where
      self : undone weight (update d.disc v (d.time + 1)) v ≡ 0
      self = rw (update_self d.disc v (d.time + 1)) (ground arith)

      gone : undone weight d.disc v ≡ weight v
      gone = rw new refl

  -- No slot was discovered at a time that reaches the capacity.
  pub time_below : d.time < pool.capacity
  time_below = omega (arith, entered_undone (λ _. 1), listing.counted)

  off : d.on v ≡ false
  off = listing.fresh v new

  other : (w : ℕ) → 0 < d.disc w → v ≢ w
  other w p e = omega (arith, ap d.disc e, new, p)

  Agree-entered : Agree pool outs (λ _. Unit) d.disc d.low d.on disc' low' on'
  Agree-entered = record {
    times = λ w _ p. update_ne d.disc v w _ (other w p);
    links = λ w _ p. update_ne d.low v w _ (other w p);
    stays = λ w _ p. update_ne d.on v w _ (other w p);
    older = λ w x _ _ _. tt;
    meets = λ w x _ p m. elim (Bool-cases (v == x)) [
      | inl e ↦
          let same = (==_iff v x).0 e in
          elim m [
            | inl c ↦ absurd (omega (arith, c.0, new, ap d.disc same))
            | inr o ↦ absurd (true-ne-false (sym o.0 ∙ ap d.on (sym same) ∙ off))
          ]
      | inr e ↦ elim m [
        | inl c ↦ inl (rw e c)
        | inr o ↦ inr (rw e (o.0, omega (arith, update_ne d.low v w (d.time + 1) (other w p), o.1)))
      ]
    ];
  }
    where
      true-ne-false : true ≢ false
      true-ne-false e = ground arith

  Below-entered : Below pool outs disc' low' on' (disc' v) d.tarjan
  Below-entered =
      All-map
        (λ x p. omega (
          arith,
          update_self d.disc v (d.time + 1),
          update_ne d.disc v x (d.time + 1) (other x p),
          listing.early x,
        ))
        d.tarjan (Layers-found pool outs d.disc d.low d.on layers)

  -- The stacks with the node on top, over frames that the new marks fit.
  Layers-entered :
      {fs : List (ℕ × ℕ)}
      → Leads pool outs fs v
      → Layers pool outs disc' low' on' d.tarjan fs
      → Layers pool outs disc' low' on' (v ∷ d.tarjan) ((v, 0) ∷ fs)
  Layers-entered leads s =
      let time = update_self d.disc v (d.time + 1) in
      let link = update_self d.low v (d.time + 1) in
      opened
        (record {
          node = record {
            stacked = update_self d.on v true;
            found = omega (arith, time);
            bounded = omega (arith, time, link);
            end = v;
            end_on = update_self d.on v true;
            end_disc = omega (arith, time, link);
            end_found = omega (arith, time);
            end_reached = Reach.here;
          };
          explored = λ j h l. absurd (omega (arith, l));
        })
        Below-entered leads s

  Components-entered : (fs : List (ℕ × ℕ)) → Components pool outs (entered d v fs)
  Components-entered fs = record {
    ids = λ w c. components.ids w (was w c);
    edges = λ w x c e. let (h, l) = components.edges w x (was w c) e in (Closed-stays x h, l);
    connected = λ w x c c'. components.connected w x (was w c) (was x c');
  }
    where
      was : (w : ℕ) → IsClosed pool outs disc' low' on' w → IsClosed pool outs d.disc d.low d.on w
      was w c = elim (Bool-cases (v == w)) [
        | inl e ↦ absurd (ground (arith, rw e at c.1))
        | inr e ↦ rw e at c
      ]

      Closed-stays :
          (w : ℕ) → IsClosed pool outs d.disc d.low d.on w → IsClosed pool outs disc' low' on' w
      Closed-stays w c = (
        omega (arith, update_ne d.disc v w (d.time + 1) (other w c.0), c.0),
        update_ne d.on v w true (other w c.0) ∙ c.1,
      )

  Listing-entered : From v → (fs : List (ℕ × ℕ)) → Listing pool outs From Before (entered d v fs)
  Listing-entered from fs = record {
    counted = omega (arith, entered_undone (λ _. 1), listing.counted);
    early = λ w. elim (Bool-cases (v == w)) [
      | inl e ↦ rw e (omega arith)
      | inr e ↦ rw e (omega (arith, listing.early w))
    ];
    fresh = λ w z. elim (Bool-cases (v == w)) [
      | inl e ↦ absurd (ground (arith, rw e at z))
      | inr e ↦ rw e (listing.fresh w (rw e at z))
    ];
    unnamed = λ w z. elim (Bool-cases (v == w)) [
      | inl e ↦ absurd (ground (arith, rw e at z))
      | inr e ↦ listing.unnamed w (rw e at z)
    ];
    inside = λ w p. elim (Bool-cases (v == w)) [
      | inl e ↦ omega (arith, (==_iff v w).0 e, within)
      | inr e ↦ listing.inside w (rw e at p)
    ];
    sound = λ w p. elim (Bool-cases (v == w)) [
      | inl e ↦ rw (← (==_iff v w).0 e) from
      | inr e ↦ listing.sound w (rw e at p)
    ];
    since = λ w b.
        let p = listing.since w b in
        omega (arith, update_ne d.disc v w (d.time + 1) (other w p), p);
    listed = λ w p. elim (Bool-cases (v == w)) [
      | inl e ↦ inl (sym ((==_iff v w).0 e))
      | inr e ↦ inr (listing.listed w (rw e at p))
    ];
    found = λ w m. elim m [
      | inl e ↦ rw e (omega (arith, update_self d.disc v (d.time + 1)))
      | inr o ↦
          let p = listing.found w o in
          omega (arith, update_ne d.disc v w (d.time + 1) (other w p), p)
    ];
    distinct = (λ m. omega (arith, listing.found v m, new), listing.distinct);
  }

  Inv-entered :
      (fs : List (ℕ × ℕ))
      → From v
      → Layers pool outs disc' low' on' (v ∷ d.tarjan) fs
      → Inv pool outs From Before (entered d v fs)
  Inv-entered fs from s = record {
    listing = Listing-entered from fs;
    few = omega (arith, few);
    stack = λ w o. elim (Bool-cases (v == w)) [
      | inl e ↦ inl (sym ((==_iff v w).0 e))
      | inr e ↦ inr (stack w (rw e at o))
    ];
    layers = s;
    components = Components-entered fs;
  }

  -- A root is the first frame.
  pub Inv-root : From v → d.frames ≡ [] → Inv pool outs From Before (entered d v ((v, 0) ∷ []))
  Inv-root from e = Inv-entered _ from (
      Layers-entered tt (
        Layers-agree pool outs Agree-entered (All-map (λ _ _. tt) d.tarjan found) (rw e at layers)))
    where
      found : All (λ w. 0 < d.disc w) d.tarjan
      found = Layers-found pool outs d.disc d.low d.on layers

  -- The target of the top frame's next edge is a new frame.
  pub Inv-child :
      (u k : ℕ) (fs : List (ℕ × ℕ)) (h : ObjHandle)
      → d.frames ≡ (u, k) ∷ fs
      → get_elem? (outs u) k ≡ some h
      → pool_valid pool h ≡ true
      → h.index ≡ v
      → From v
      → Inv pool outs From Before (entered d v ((v, 0) ∷ (u, k + 1) ∷ fs))
  Inv-child u k fs h e stands live leads from = Inv-entered _ from (
      Layers-entered (Reach.step Reach.here edge)
        (Layers-advance pool outs disc' on' same next old))
    where
      edge : Edge pool outs u v
      edge = record { place = k; handle = h; stands = stands; live = live; leads = leads }

      found : All (λ w. 0 < d.disc w) d.tarjan
      found = Layers-found pool outs d.disc d.low d.on layers

      old : Layers pool outs disc' low' on' d.tarjan ((u, k) ∷ fs)
      old =
          Layers-agree pool outs Agree-entered (All-map (λ _ _. tt) d.tarjan found) (rw e at layers)

      same : Lowers pool outs disc' on' u low' low'
      same = record { least = omega arith; others = λ x n. refl }

      before : Open pool outs disc' low' on' u k
      before = Layers-Open pool outs disc' low' on' old

      next : Open pool outs disc' low' on' u (k + 1)
      next = record {
        node = before.node;
        explored =
            Explored-next pool outs disc' low' on' u k h stands (λ _. inr (meets h.index leads))
              before.explored;
      }
        where
          meets : (w : ℕ) → w ≡ v → (on' w ≡ true) × (low' u ≤ disc' w)
          meets w same = rw same (
            update_self d.on v true,
            omega (
              arith,
              update_self d.disc v (d.time + 1),
              listing.early u,
              before.node.bounded,
              update_ne d.disc v u (d.time + 1) (other u was),
            ),
          )
            where
              was : 0 < d.disc u
              was = Layers-top pool outs d.disc d.low d.on _ (rw e at layers) found
