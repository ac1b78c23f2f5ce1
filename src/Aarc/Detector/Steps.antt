-- ===== src/Aarc/Detector/Steps.antt =====
-- A round that follows an edge lowers at most the top frame's low-link, and a finished node that closes no
-- component is held by the frame below.
use loxis_programming_langua.Prelude.{
  ℕ, ◌≤◌, ◌<◌, ◌≡◌, refl, sym, ap, ◌∙◌, ◌≢◌, inl, inr, Bool, List, ◌∷◌, arith,
}
use loxis_programming_langua.Aarc.Cells.{ObjHandle, CellPool}
use loxis_programming_langua.Aarc.Detector.Graph.{Edge, Reach, Reach_trans}
use loxis_programming_langua.Aarc.Detector.Layers.{
  Meets, Node, Open, Held, Layers, opened, held, Layers-top, Layers-Open,
}
use loxis_programming_langua.Aarc.Detector.Moves.{Agree, Layers-agree}

module _ (pool : CellPool) (outs : ℕ → List ObjHandle) (disc : ℕ → ℕ) (on : ℕ → Bool) where
  -- The low-link of `u` is lowered, and no other changes.
  pub record Lowers (u : ℕ) (low low' : ℕ → ℕ) : Type 0 where
    pub least : low' u ≤ low u
    pub others : (x : ℕ) → x ≢ u → low' x ≡ low x

  module _ {u : ℕ} {low low' : ℕ → ℕ} (m : Lowers u low low') where
    Meets-lowers :
        (w v : ℕ) → w ≢ u → Meets pool outs disc low on w v → Meets pool outs disc low' on w v
    Meets-lowers w v n (inl c) = inl c
    Meets-lowers w v n (inr (o, l)) = inr (o, omega (arith, m.others w n, l))

    pub Meets-least : (v : ℕ) → Meets pool outs disc low on u v → Meets pool outs disc low' on u v
    Meets-least v (inl c) = inl c
    Meets-least v (inr (o, l)) = inr (o, omega (arith, m.least, l))

    -- Under the node `u` nothing changes.
    Agree-under : Agree pool outs (λ x. disc x < disc u) disc low on disc low' on
    Agree-under = record {
      times = λ w q f. refl;
      links = λ w q f. m.others w (under w q);
      stays = λ w q f. refl;
      older = λ w x q f l. omega (arith, q, l);
      meets = λ w v q f h. Meets-lowers w v (under w q) h;
    }
      where
        under : (w : ℕ) → disc w < disc u → w ≢ u
        under w q e = omega (arith, q, ap disc e)

    Node-lowers : {w : ℕ} → w ≢ u → Node pool outs disc low on w → Node pool outs disc low' on w
    Node-lowers {w} q n = record {
      stacked = n.stacked;
      found = n.found;
      bounded = omega (arith, m.others w q, n.bounded);
      end = n.end;
      end_on = n.end_on;
      end_disc = n.end_disc ∙ sym (m.others w q);
      end_found = n.end_found;
      end_reached = n.end_reached;
    }

    above : {w : ℕ} → Held pool outs disc low on u w → w ≢ u
    above h e = omega (arith, h.after, ap disc e)

    Held-lowers : {w : ℕ} → Held pool outs disc low on u w → Held pool outs disc low' on u w
    Held-lowers {w} h =
        let same = m.others w (above h) in
        record {
          node = Node-lowers (above h) h.node;
          lower = omega (arith, same, h.lower);
          folded = omega (arith, same, m.least, h.folded);
          after = h.after;
          reached = h.reached;
          explored = λ v e. Meets-lowers w v (above h) (h.explored v e);
        }

    pub Layers-advance :
        {k k' : ℕ} {t : List ℕ} {fs : List (ℕ × ℕ)}
        → Open pool outs disc low' on u k'
        → Layers pool outs disc low on t ((u, k) ∷ fs)
        → Layers pool outs disc low' on t ((u, k') ∷ fs)
    Layers-advance o' (opened o b l s) = opened o' b l (Layers-agree pool outs Agree-under b s)
    Layers-advance o' (held h b s) = held (Held-lowers h) b (Layers-advance o' s)

    -- The node `u` of the frame below takes over what the finished node `w` held, and `w` itself.
    module _ {w : ℕ} (older : disc u < disc w) (leads : Reach pool outs u w)
        (least : low' u ≤ low w) where
      Held-retire : {x : ℕ} → Held pool outs disc low on w x → Held pool outs disc low' on u x
      Held-retire {x} h =
          let apart = (λ (e : x ≡ u). absurd (omega (arith, h.after, older, ap disc e))) in
          let same = m.others x apart in
          record {
            node = Node-lowers apart h.node;
            lower = omega (arith, same, h.lower);
            folded = omega (arith, same, least, h.folded);
            after = omega (arith, h.after, older);
            reached = Reach_trans pool outs leads h.reached;
            explored = λ v e. Meets-lowers x v apart (h.explored v e);
          }

      pub Layers-retire :
          {k j j' : ℕ} {t : List ℕ} {fs : List (ℕ × ℕ)}
          → Open pool outs disc low' on u j'
          → low w < disc w
          → ((v : ℕ) → Edge pool outs w v → Meets pool outs disc low on w v)
          → Layers pool outs disc low on t ((w, k) ∷ (u, j) ∷ fs)
          → Layers pool outs disc low' on t ((u, j') ∷ fs)
      Layers-retire o' lower edges (opened o b l s) =
          let apart = (λ (e : w ≡ u). absurd (omega (arith, older, ap disc e))) in
          let same = m.others w apart in
          held
            (record {
              node = Node-lowers apart o.node;
              lower = omega (arith, same, lower);
              folded = omega (arith, same, least);
              after = older;
              reached = leads;
              explored = λ v e. Meets-lowers w v apart (edges v e);
            })
            b (Layers-advance o' s)
      Layers-retire o' lower edges (held h b s) =
          held (Held-retire h) b (Layers-retire o' lower edges s)

-- What the top two frames say of each other.
module _ (pool : CellPool) (outs : ℕ → List ObjHandle) {disc low : ℕ → ℕ} {on : ℕ → Bool} where
  pub Layers-second :
      {w k u j : ℕ} {t : List ℕ} {fs : List (ℕ × ℕ)}
      → Layers pool outs disc low on t ((w, k) ∷ (u, j) ∷ fs)
      → (disc u < disc w) × Reach pool outs u w × Open pool outs disc low on u j
  Layers-second (opened o b l s) =
      (Layers-top pool outs disc low on _ s b, l, Layers-Open pool outs disc low on s)
  Layers-second (held h b s) = Layers-second s
