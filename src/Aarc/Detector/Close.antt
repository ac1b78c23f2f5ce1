-- ===== src/Aarc/Detector/Close.antt =====
-- The loop of `finishNode` takes the top frame's node and what it holds off the stack, and nothing else.
use loxis_programming_langua.Prelude.{
  ℕ, ◌<◌, ◌≡◌, refl, sym, ap, ◌⊎◌, inl, inr, Bool, true, false, some, List, ◌∷◌, arith, ◌==◌,
  Bool-cases, ==_iff, update, length,
}
use loxis_programming_langua.Aarc.Cells.{ObjHandle, CellPool}
use loxis_programming_langua.Aarc.Detector.{CycleDetector, close_component}
use loxis_programming_langua.Aarc.Detector.Layers.{◌∈◌, Held, Below, Layers, opened, held}

module _ (pool : CellPool) (outs : ℕ → List ObjHandle) (disc low : ℕ → ℕ) (on : ℕ → Bool) where
  -- A node that the loop took off, or one that it left.
  pub record Popped (u comps : ℕ) (on' : ℕ → Bool) (scc' : ℕ → ℕ) (x : ℕ) : Type 0 where
    pub member : (x ≡ u) ⊎ Held pool outs disc low on u x
    pub off : on' x ≡ false
    pub named : scc' x ≡ comps

  pub record Left (was : ℕ → Bool) (scc : ℕ → ℕ) (t : List ℕ) (on' : ℕ → Bool) (scc' : ℕ → ℕ)
      (t' : List ℕ) (x : ℕ) : Type 0 where
    pub same_on : on' x ≡ was x
    pub same_scc : scc' x ≡ scc x
    pub still : x ∈ t → x ∈ t'

  pub record Closes (u : ℕ) (fs : List (ℕ × ℕ)) (t : List ℕ) (d : CycleDetector) : Type 0 where
    pub on' : ℕ → Bool
    pub scc' : ℕ → ℕ
    pub rest : List ℕ
    pub returns : close_component u t d ≡ some (record d { tarjan = rest; on = on'; scc = scc' })
    pub layers : Layers pool outs disc low on rest fs
    pub below : Below pool outs disc low on (disc u) rest
    pub fewer : length rest < length t
    pub split : (x : ℕ) → Popped u d.comps on' scc' x ⊎ Left d.on d.scc t on' scc' rest x

  -- One node more on top of those that the loop takes off.
  Closes-first :
      {u w : ℕ} {fs : List (ℕ × ℕ)} {t : List ℕ} {d : CycleDetector}
      → Held pool outs disc low on u w
      → Closes u fs t
          (record d { tarjan = t; on = update d.on w false; scc = update d.scc w d.comps })
      → Closes u fs (w ∷ t) d
  unfolding close_component
  Closes-first {u} {w} {fs} {t} {d} h c =
      let apart : (w == u) ≡ false = elim (Bool-cases (w == u)) [
        | inl e ↦ absurd (omega (arith, h.after, ap disc ((==_iff w u).0 e)))
        | inr e ↦ e
      ] in
      record {
        on' = c.on';
        scc' = c.scc';
        rest = c.rest;
        returns = rw apart c.returns;
        layers = c.layers;
        below = c.below;
        fewer = omega (arith, c.fewer);
        split = λ x. elim (c.split x) [
          | inl p ↦ inl p
          | inr l ↦ elim (Bool-cases (w == x)) [
            | inl e ↦ inl (record {
              member = inr (rw (← (==_iff w x).0 e) h);
              off = ground (arith, l.same_on);
              named = ground (arith, l.same_scc);
            })
            | inr e ↦ inr (record {
              same_on = rw e at l.same_on;
              same_scc = rw e at l.same_scc;
              still = λ m. elim m [
                | inl same ↦ absurd (ground (arith, same, e))
                | inr old ↦ l.still old
              ];
            })
          ]
        ];
      }

  pub close_component-Closes :
      {u k : ℕ} {fs : List (ℕ × ℕ)} {t : List ℕ}
      → Layers pool outs disc low on t ((u, k) ∷ fs)
      → (d : CycleDetector) → Closes u fs t d
  unfolding close_component
  close_component-Closes {u} {t = w ∷ t} (opened o b l s) d =
      let self : (u == u) ≡ true = (==_iff u u).1 refl in
      record {
        on' = update d.on u false;
        scc' = update d.scc u d.comps;
        rest = t;
        returns = rw self refl;
        layers = s;
        below = b;
        fewer = omega arith;
        split = λ x. elim (Bool-cases (u == x)) [
          | inl e ↦
              inl (record {
                member = inl (sym ((==_iff u x).0 e));
                off = rw e refl;
                named = rw e refl;
              })
          | inr e ↦ inr (record {
            same_on = rw e refl;
            same_scc = rw e refl;
            still = λ m. elim m [ inl same ↦ absurd (ground (arith, same, e)) | inr old ↦ old ];
          })
        ];
      }
  close_component-Closes (held h b s) d = Closes-first h (close_component-Closes s _)
