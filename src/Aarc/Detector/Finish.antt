-- ===== src/Aarc/Detector/Finish.antt =====
-- `finishNode` keeps the invariant: a node that closes no component is held by the frame below.
use loxis_programming_langua.Prelude.{
  update_self, update_ne, ℕ, ◌+◌, ◌%◌, ◌^◌, ◌≤◌, ◌<◌, ◌≡◌, refl, sym, ap, ◌∙◌, inl, inr, Bool, true,
  false, List, [], ◌∷◌, arith, ltb, ltb→lt, ◌==◌, Bool-cases, ==_iff, update, get_elem?, some, none,
}
use loxis_programming_langua.Aarc.Cells.{ObjHandle, CellPool}
use loxis_programming_langua.Aarc.Detector.{
  CycleDetector, count_component, fold_low, fold_option, finish_node,
}
use loxis_programming_langua.Aarc.Detector.Graph.{Reach_trans}
use loxis_programming_langua.Aarc.Detector.Layers.{◌∈◌, Node, Layers, opened, held, nothing}
use loxis_programming_langua.Aarc.Detector.Steps.{Lowers, Meets-least, Layers-retire, Layers-second}
use loxis_programming_langua.Aarc.Detector.Inv.{Inv}
use loxis_programming_langua.Aarc.Detector.Edges.{Inv-links}
use loxis_programming_langua.Aarc.Detector.Component.{
  old, Open-top, all_edges, closes, closed, Inv-closed,
}

module _ (pool : CellPool) (outs : ℕ → List ObjHandle) {disc low : ℕ → ℕ} {on : ℕ → Bool} where
  -- Under the only frame the stack holds nothing older.
  Layers-root :
      {t : List ℕ} {u k : ℕ}
      → Layers pool outs disc low on t ((u, k) ∷ [])
      → (v : ℕ) → v ∈ t
      → disc u ≤ disc v
  Layers-root (opened o b l nothing) v (inl e) = omega (arith, ap disc e)
  Layers-root (opened o b l nothing) v (inr m) = absurd m
  Layers-root (held h b s) v (inl e) = omega (arith, ap disc e, h.after)
  Layers-root (held h b s) v (inr m) = Layers-root s v m

module _ (pool : CellPool) (outs : ℕ → List ObjHandle) {disc : ℕ → ℕ} {on : ℕ → Bool} where
  -- A node that closes its component leaves the frame below as it is.
  fold_low_closing :
      (x : CycleDetector) {t : List ℕ} {u k : ℕ} (fs : List (ℕ × ℕ))
      → Layers pool outs disc x.low on t ((u, k) ∷ fs)
      → x.low u ≡ disc u
      → fold_low u fs x ≡ x
  unfolding fold_low
  fold_low_closing x [] s e = refl
  fold_low_closing x {u = u} ((p, j) ∷ fs) s e =
      let (older, leads, o) = Layers-second pool outs s in
      let b = o.node.bounded in
      let idle : ltb (x.low u) (x.low p) ≡ false = ground (arith, older, b, e) in rw idle refl

module _ (pool : CellPool) (outs : ℕ → List ObjHandle) (From Before : ℕ → Type 0)
    (small : pool.capacity < 2 ^ 32) (u k : ℕ) (ended : get_elem? (outs u) k ≡ none) where
  pub record Finished (d : CycleDetector) (fs : List (ℕ × ℕ)) : Type 0 where
    pub out : CycleDetector
    pub returns : finish_node u fs d ≡ some out
    pub inv : Inv pool outs From Before out
    pub frames : out.frames ≡ fs
    pub times : out.disc ≡ d.disc

  -- The node closes its component.
  finish_closing :
      (d : CycleDetector) (fs : List (ℕ × ℕ)) (i : Inv pool outs From Before d)
      → d.frames ≡ (u, k) ∷ fs
      → d.low u ≡ d.disc u
      → Finished d fs
  unfolding finish_node count_component fold_option
  finish_closing d fs i top e =
      let c = closes pool outs From Before d i u k fs top ended e in
      let equal : (d.low u == d.disc u) ≡ true = (==_iff _ _).1 e in
      let no_wrap : (d.comps + 1) % 2 ^ 32 ≡ d.comps + 1 =
        omega (arith, i.few, c.fewer, i.listing.counted, small) in
      record {
        out = closed pool outs From Before d i u k fs top ended e;
        returns =
            rw (equal, c.returns, no_wrap)
              (ap some (
                fold_low_closing pool outs _ fs (old pool outs From Before d i u k fs top ended)
                  e));
        inv = Inv-closed pool outs From Before d i u k fs top ended e;
        frames = refl;
        times = refl;
      }

  -- The frame below takes the node over, and its low-link.
  retire-Node :
      (d : CycleDetector) (p j : ℕ) (fs : List (ℕ × ℕ)) (i : Inv pool outs From Before d)
      (top : d.frames ≡ (u, k) ∷ (p, j) ∷ fs) (low : ℕ → ℕ)
      → d.low u < d.disc u
      → Lowers pool outs d.disc d.on p d.low low
      → low p ≤ d.low u
      → Node pool outs d.disc low d.on p
      → Inv pool outs From Before (record d { low = low; frames = (p, j) ∷ fs })
  retire-Node d p j fs i top low lower m least node =
      let s = old pool outs From Before d i u k _ top ended in
      let (older, leads, o) = Layers-second pool outs s in
      Inv-links low _
        (Layers-retire pool outs d.disc d.on m older leads least
          (record {
            node = node;
            explored =
                λ l h b q v. Meets-least pool outs d.disc d.on m h.index (o.explored l h b q v);
          })
          lower (all_edges pool outs From Before d i u k _ top ended) s)
        i

  finish_folding :
      (d : CycleDetector) (fs : List (ℕ × ℕ)) (i : Inv pool outs From Before d)
      → d.frames ≡ (u, k) ∷ fs
      → d.low u < d.disc u
      → Finished d fs
  unfolding finish_node fold_option fold_low
  finish_folding d [] i top lower =
      let s = old pool outs From Before d i u k _ top ended in
      let n = (Open-top pool outs From Before d i u k _ top ended).node in
      absurd
        (omega (arith, lower, n.end_disc, Layers-root pool outs s n.end (i.stack n.end n.end_on)))
  finish_folding d ((p, j) ∷ fs) i top lower =
      let s = old pool outs From Before d i u k _ top ended in
      let n = (Open-top pool outs From Before d i u k _ top ended).node in
      let (older, leads, o) = Layers-second pool outs s in
      let differs : (d.low u == d.disc u) ≡ false = ground (arith, lower) in
      elim (Bool-cases (ltb (d.low u) (d.low p))) [
        | inl less ↦
            let self = update_self d.low p (d.low u) in
            let smaller = ltb→lt (d.low u) (d.low p) less in
            record {
              out = record d { low = update d.low p (d.low u); frames = (p, j) ∷ fs };
              returns = rw (differs, less) refl;
              inv =
                  retire-Node d p j fs i top _ lower
                    (record {
                      least = omega (arith, self, smaller);
                      others = λ x q. update_ne d.low p x _ (λ w. q (sym w));
                    })
                    (omega (arith, self))
                    (record {
                      stacked = o.node.stacked;
                      found = o.node.found;
                      bounded = omega (arith, self, smaller, o.node.bounded);
                      end = n.end;
                      end_on = n.end_on;
                      end_disc = n.end_disc ∙ sym self;
                      end_found = n.end_found;
                      end_reached = Reach_trans pool outs leads n.end_reached;
                    });
              frames = refl;
              times = refl;
            }
        | inr more ↦ record {
          out = record d { frames = (p, j) ∷ fs };
          returns = rw (differs, more) refl;
          inv =
              retire-Node d p j fs i top d.low lower
                (record { least = omega arith; others = λ x q. refl }) (ground (arith, more))
                o.node;
          frames = refl;
          times = refl;
        }
      ]

  pub finish_node-Finished :
      (d : CycleDetector) (fs : List (ℕ × ℕ)) (i : Inv pool outs From Before d)
      → d.frames ≡ (u, k) ∷ fs
      → Finished d fs
  finish_node-Finished d fs i top = elim (Bool-cases (d.low u == d.disc u)) [
    | inl e ↦ finish_closing d fs i top ((==_iff _ _).0 e)
    | inr e ↦
        let b = (Open-top pool outs From Before d i u k _ top ended).node.bounded in
        finish_folding d fs i top (ground (arith, b, e))
  ]
