-- ===== src/Aarc/Detector/Loop.antt =====
-- The loop of `visitFrom`: each round follows an edge or takes a frame away, so it ends within one round for
-- each undiscovered slot, each of their edges, and what the open frames have left.
use loxis_programming_langua.Prelude.{
  update_self, sum_below, ℕ, zero, suc, ◌+◌, ◌-◌, ◌^◌, ◌≤◌, ◌<◌, ◌≡◌, refl, ap, ◌∙◌, inl, inr, List,
  [], ◌∷◌, arith, ◌==◌, Bool-cases, Option-cases, ==_iff, length, get_elem?, Option, some, none,
}
use loxis_programming_langua.Aarc.Cells.{ObjHandle, CellPool, pool_valid, valid_inside}
use loxis_programming_langua.Aarc.Detector.{
  CycleDetector, follow, take_edge, search_round, visit_loop,
}
use loxis_programming_langua.Aarc.Detector.Graph.{Edge}
use loxis_programming_langua.Aarc.Detector.Layers.{Layers-top, Layers-found}
use loxis_programming_langua.Aarc.Detector.Inv.{undone, Inv}
use loxis_programming_langua.Aarc.Detector.Enter.{
  entered, discover_found, discover_fresh, entered_undone, time_below, Inv-child,
}
use loxis_programming_langua.Aarc.Detector.Edges.{Inv-skip, Inv-follow}
use loxis_programming_langua.Aarc.Detector.Finish.{finish_node-Finished}

get_elem?_inside {ℓ} :
    {A : Type ℓ} (xs : List A) (k : ℕ) (a : A) → get_elem? xs k ≡ some a → k < length xs
get_elem?_inside [] k a s = absurd (ground (arith, s))
get_elem?_inside (x ∷ xs) zero a s = omega arith
get_elem?_inside (x ∷ xs) (suc k) a s = omega (arith, get_elem?_inside xs k a s)

follow_found :
    (u v : ℕ) (d : CycleDetector)
    → 0 < d.disc v
    → ((follow u v d).frames ≡ d.frames) × ((follow u v d).disc ≡ d.disc)
unfolding follow
follow_found u v d p = ground arith

module _ (pool : CellPool) (outs : ℕ → List ObjHandle) where
  -- The rounds that a slot takes: one for each edge and one at the end.
  abbrev pub rounds : ℕ → ℕ
  rounds u = length (outs u) + 1

  abbrev pub frame_rounds : List (ℕ × ℕ) → ℕ
  frame_rounds [] = 0
  frame_rounds ((u, k) ∷ fs) = suc (length (outs u) - k) + frame_rounds fs

  abbrev pub rounds_left : CycleDetector → ℕ
  rounds_left d = sum_below pool.capacity (undone rounds d.disc) + frame_rounds d.frames

  module _ (From Before : ℕ → Type 0) (follows : (u v : ℕ) → From u → Edge pool outs u v → From v)
      (small : pool.capacity < 2 ^ 32) where
    pub record Visits (fuel : ℕ) (d : CycleDetector) : Type 0 where
      pub out : CycleDetector
      pub returns : visit_loop pool outs fuel d ≡ some out
      pub inv : Inv pool outs From Before out
      pub over : out.frames ≡ []

    search_round-entered :
        (d : CycleDetector) (v : ℕ) (fs : List (ℕ × ℕ))
        → d.disc v ≡ 0
        → d.time + 1 < 2 ^ 32
        → search_round pool outs v 0 fs (record d { frames = (v, 0) ∷ fs })
          ≡ search_round pool outs v 0 fs (entered d v ((v, 0) ∷ fs))
    unfolding search_round
    search_round-entered d v fs new l =
        let found : 0 < (entered d v ((v, 0) ∷ fs)).disc v =
          rw (update_self d.disc v (d.time + 1)) (omega arith) in
        rw
          (
            discover_fresh v d ((v, 0) ∷ fs) new l,
            discover_found v (entered d v ((v, 0) ∷ fs)) found,
          )
          refl

    -- What the loop does with the result of a round.
    abbrev continue : ℕ → Option CycleDetector → Option CycleDetector
    continue fuel r = elim r as (λ _. Option CycleDetector) [
      | none ↦ none
      | some next ↦ visit_loop pool outs fuel next
    ]

    abbrev by_frames : ℕ → CycleDetector → List (ℕ × ℕ) → Option CycleDetector
    by_frames fuel d fs = elim fs as (λ _. Option CycleDetector) [
      | [] ↦ some d
      | (u, k) ∷ rest ↦ elim (search_round pool outs u k rest d) as (λ _. Option CycleDetector) [
        | none ↦ none
        | some next ↦ visit_loop pool outs fuel next
      ]
    ]

    -- A frame whose node the next round discovers stands for the state after that.
    pub visit_loop-entered :
        (fuel : ℕ) (d : CycleDetector) (v : ℕ) (fs : List (ℕ × ℕ))
        → d.disc v ≡ 0
        → d.time + 1 < 2 ^ 32
        → 0 < fuel
        → Visits fuel (entered d v ((v, 0) ∷ fs))
        → Visits fuel (record d { frames = (v, 0) ∷ fs })
    unfolding visit_loop
    visit_loop-entered zero d v fs new l p w = elim p [ ]
    visit_loop-entered (suc fuel) d v fs new l p w = record {
      out = w.out;
      returns = ap (continue fuel) (search_round-entered d v fs new l) ∙ w.returns;
      inv = w.inv;
      over = w.over;
    }

    visit_loop-round :
        (fuel u k : ℕ) (fs : List (ℕ × ℕ)) (d next : CycleDetector)
        → d.frames ≡ (u, k) ∷ fs
        → take_edge pool outs u k fs d (get_elem? (outs u) k) ≡ some next
        → 0 < d.disc u
        → Visits fuel next
        → Visits (suc fuel) d
    unfolding visit_loop search_round
    visit_loop-round fuel u k fs d next top taken found w = record {
      out = w.out;
      returns = ap (by_frames fuel d) top ∙ ap (continue fuel) went ∙ w.returns;
      inv = w.inv;
      over = w.over;
    }
      where
        went : search_round pool outs u k fs d ≡ some next
        went = rw (discover_found u d found) taken

    pub visit_loop-Visits :
        (fuel : ℕ) (d : CycleDetector) (frames : List (ℕ × ℕ))
        → d.frames ≡ frames
        → Inv pool outs From Before d
        → rounds_left d ≤ fuel
        → Visits fuel d
    unfolding visit_loop take_edge follow
    visit_loop-Visits zero d [] top i m = record {
      out = d;
      returns = rw top refl;
      inv = i;
      over = top;
    }
    visit_loop-Visits (suc fuel) d [] top i m = record {
      out = d;
      returns = rw top refl;
      inv = i;
      over = top;
    }
    visit_loop-Visits zero d ((u, k) ∷ fs) top i m = absurd (omega (arith, rw top at m))
    visit_loop-Visits (suc fuel) d ((u, k) ∷ fs) top i m =
        let left = rw top at m in
        let found : 0 < d.disc u =
          Layers-top pool outs d.disc d.low d.on _ (rw top at i.layers)
            (Layers-found pool outs d.disc d.low d.on i.layers) in
        elim (Option-cases (get_elem? (outs u) k)) [
          | inl ended ↦
              let f = finish_node-Finished pool outs From Before small u k ended d fs i top in
              visit_loop-round fuel u k fs d f.out top (rw ended f.returns) found (
                visit_loop-Visits fuel f.out fs f.frames f.inv
                  (rw (f.times, f.frames) (omega (arith, left))))
          | inr (h, stands) ↦
              let next = get_elem?_inside (outs u) k h stands in
              elim (Bool-cases (pool_valid pool h)) [
                | inl live ↦ elim (Bool-cases (d.disc h.index == 0)) [
                  | inl new ↦
                      let zero_disc = (==_iff (d.disc h.index) 0).0 new in
                      let within = valid_inside pool h live in
                      let from = follows u h.index (i.listing.sound u found) (record {
                        place = k;
                        handle = h;
                        stands = stands;
                        live = live;
                        leads = refl;
                      }) in
                      let time = time_below pool outs From Before d i h.index zero_disc within in
                      let weight =
                        entered_undone pool outs From Before d i h.index zero_disc within rounds in
                      visit_loop-round fuel u k fs d
                        (record d { frames = (h.index, 0) ∷ (u, k + 1) ∷ fs }) top
                        (rw (stands, live, new) refl) found
                        (visit_loop-entered fuel d h.index ((u, k + 1) ∷ fs) zero_disc
                          (omega (arith, time, small)) (omega (arith, left, next))
                          (visit_loop-Visits fuel _ _ refl
                            (Inv-child pool outs From Before d i h.index zero_disc within u k fs h
                              top stands live refl from)
                            (omega (arith, left, next, weight))))
                  | inr old ↦
                      let kept =
                        follow_found u h.index (record d { frames = (u, k + 1) ∷ fs })
                          (ground (arith, old)) in
                      visit_loop-round fuel u k fs d
                        (follow u h.index (record d { frames = (u, k + 1) ∷ fs })) top
                        (rw (stands, live) refl) found
                        (visit_loop-Visits fuel _ _ kept.0
                          (Inv-follow pool outs From Before d i u k fs top h stands live
                            (ground (arith, old)))
                          (rw (kept.1, kept.0) (omega (arith, left, next))))
                ]
                | inr stale ↦
                    visit_loop-round fuel u k fs d (record d { frames = (u, k + 1) ∷ fs }) top
                      (rw (stands, stale) refl) found
                      (visit_loop-Visits fuel _ _ refl
                        (Inv-skip pool outs From Before d i u k fs top h stands stale)
                        (omega (arith, left, next)))
              ]
        ]
