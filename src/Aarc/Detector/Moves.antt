-- ===== src/Aarc/Detector/Moves.antt =====
-- How the finder's stacks change: marks that agree on the stack, a step of the top frame, a frame that
-- leaves while its node stays.
use loxis_programming_langua.Prelude.{ℕ, ◌≤◌, ◌<◌, ◌≡◌, ◌∙◌, Bool, List, [], ◌∷◌, arith}
use loxis_programming_langua.Aarc.Cells.{ObjHandle, CellPool}
use loxis_programming_langua.Aarc.Detector.Layers.{
  All, Meets, Node, Open, Held, Below, Layers, nothing, opened, held, Layers-found, Layers-top,
}

module _ (pool : CellPool) (outs : ℕ → List ObjHandle) where
  -- New marks that agree with the old ones on the nodes of `Q`, where an edge's finding stays true.
  pub record Agree (Q : ℕ → Type 0) (disc low : ℕ → ℕ) (on : ℕ → Bool) (disc' low' : ℕ → ℕ)
      (on' : ℕ → Bool) : Type 0 where
    pub times : (w : ℕ) → Q w → 0 < disc w → disc' w ≡ disc w
    pub links : (w : ℕ) → Q w → 0 < disc w → low' w ≡ low w
    pub stays : (w : ℕ) → Q w → 0 < disc w → on' w ≡ on w
    pub older : (w x : ℕ) → Q w → 0 < disc x → disc x ≤ disc w → Q x
    pub meets :
        (w v : ℕ)
        → Q w
        → 0 < disc w
        → Meets pool outs disc low on w v
        → Meets pool outs disc' low' on' w v

  module _ {Q : ℕ → Type 0} {disc low : ℕ → ℕ} {on : ℕ → Bool} {disc' low' : ℕ → ℕ} {on' : ℕ → Bool}
      (g : Agree Q disc low on disc' low' on') where
    open g use {times, links, stays, older, meets}

    Node-agree : {w : ℕ} → Q w → Node pool outs disc low on w → Node pool outs disc' low' on' w
    Node-agree {w} q n =
        let ends = older w n.end q n.end_found (omega (arith, n.end_disc, n.bounded)) in
        record {
          stacked = stays w q n.found ∙ n.stacked;
          found = omega (arith, times w q n.found, n.found);
          bounded = omega (arith, times w q n.found, links w q n.found, n.bounded);
          end = n.end;
          end_on = stays n.end ends n.end_found ∙ n.end_on;
          end_disc = omega (arith, times n.end ends n.end_found, links w q n.found, n.end_disc);
          end_found = omega (arith, times n.end ends n.end_found, n.end_found);
          end_reached = n.end_reached;
        }

    Open-agree :
        {u k : ℕ} → Q u → Open pool outs disc low on u k → Open pool outs disc' low' on' u k
    Open-agree {u} q o = record {
      node = Node-agree q o.node;
      explored = λ j h b s v. meets u h.index q o.node.found (o.explored j h b s v);
    }

    Held-agree :
        {u w : ℕ}
        → Q u
        → Q w
        → 0 < disc u
        → Held pool outs disc low on u w
        → Held pool outs disc' low' on' u w
    Held-agree {u} {w} qu q pu h =
        let found = h.node.found in
        record {
          node = Node-agree q h.node;
          lower = omega (arith, times w q found, links w q found, h.lower);
          folded = omega (arith, links u qu pu, links w q found, h.folded);
          after = omega (arith, times w q found, times u qu pu, h.after);
          reached = h.reached;
          explored = λ v e. meets w v q found (h.explored v e);
        }

    Below-agree :
        (b : ℕ) (t : List ℕ)
        → All Q t
        → All (λ w. 0 < disc w) t
        → Below pool outs disc low on b t
        → Below pool outs disc' low' on' b t
    Below-agree b [] q f h = tt
    Below-agree b (x ∷ t) q f h = (omega (arith, times x q.0 f.0, h.0), Below-agree b t q.1 f.1 h.1)

    pub Layers-agree :
        {t : List ℕ} {fs : List (ℕ × ℕ)}
        → All Q t
        → Layers pool outs disc low on t fs
        → Layers pool outs disc' low' on' t fs
    Layers-agree q nothing = nothing
    Layers-agree {t = u ∷ t} q (opened o b l s) =
        opened (Open-agree q.0 o)
          (rw (times u q.0 o.node.found)
            (Below-agree _ _ q.1 (Layers-found pool outs disc low on s) b))
          l (Layers-agree q.1 s)
    Layers-agree {t = w ∷ t} q (held {u} h b s) =
        let top = Layers-top pool outs disc low on Q s q.1 in
        held
          (Held-agree top q.0
            (Layers-top pool outs disc low on _ s (Layers-found pool outs disc low on s)) h)
          (rw (times w q.0 h.node.found)
            (Below-agree _ _ q.1 (Layers-found pool outs disc low on s) b))
          (Layers-agree q.1 s)
