-- ===== src/Aarc/RefTable/Counted.antt =====
-- The number of live edges is the number of handles that the slots hold.
use loxis_programming_langua.Prelude.{
  ℕ, zero, suc, ◌+◌, ◌<◌, ◌≡◌, refl, sym, ap, inl, inr, some, Option-cases, Bool-cases, List, [],
  ◌∷◌, ◌++◌, length, length-append, arith, ltb, ◌==◌, update, update_self, update_ne, sum_below,
  sum_below_change,
}
use loxis_programming_langua.Aarc.Cells.{ObjHandle}
use loxis_programming_langua.Aarc.RefTable.{
  RefTable, new_table, same_handle, add_root, sub_root, add_edge_to, sub_edge_to, add_out,
  erase_out, remove_out, clear_outs, reset_slot, Change, root_added, root_dropped, edge_counted,
  edge_dropped, slot_cleared, slot_reset, out_added, out_removed, change, changes,
}

-- An erasure takes one handle.
length-erase_out :
    (dst : ObjHandle) (xs left : List ObjHandle)
    → erase_out dst xs ≡ some left
    → length xs ≡ length left + 1
unfolding erase_out
length-erase_out dst [] left e = absurd (ground (arith, e))
length-erase_out dst (h ∷ rest) left e = elim (Bool-cases (same_handle h dst)) [
  | inl same ↦
      let w : some rest ≡ some left = rw same at e in
      let l : rest ≡ left = cc w in omega (arith, ap length l)
  | inr other ↦ elim (Option-cases (erase_out dst rest)) [
    | inl gone ↦ absurd (ground (arith, rw (other, gone) at e))
    | inr (l, found) ↦
        let w : some (h ∷ l) ≡ some left = rw (other, found) at e in
        let s : h ∷ l ≡ left = cc w in omega (arith, length-erase_out dst rest l found, ap length s)
  ]
]

module _ (width : ℕ) where
  abbrev pub held : (ℕ → List ObjHandle) → ℕ
  held outs = sum_below width (λ i. length (outs i))

  held-update :
      (outs : ℕ → List ObjHandle) (i : ℕ) (xs : List ObjHandle)
      → i < width
      → held (update outs i xs) + length (outs i) ≡ held outs + length xs
  held-update outs i xs inside =
      let moved =
        sum_below_change width i (λ j. length (update outs i xs j)) (λ j. length (outs j)) inside
          (λ j n. ap length (update_ne outs i j xs n)) in
      omega (arith, moved, ap length (update_self outs i xs))

  -- The slots that a change names are in the table.
  abbrev pub IsInside : Change → Type 0
  IsInside (root_added i n) = i < width
  IsInside (root_dropped i n) = i < width
  IsInside (edge_counted i) = i < width
  IsInside (edge_dropped i) = i < width
  IsInside (slot_cleared i) = i < width
  IsInside (slot_reset i) = i < width
  IsInside (out_added src dst) = src.index < width
  IsInside (out_removed src dst) = src.index < width

  abbrev pub AreInside : List Change → Type 0
  AreInside [] = Unit
  AreInside (c ∷ cs) = IsInside c × AreInside cs

  abbrev pub IsCounted : RefTable → Type 0
  IsCounted t = t.live_edges ≡ held t.outs

  change-IsCounted : (c : Change) (t : RefTable) → IsInside c → IsCounted t → IsCounted (change c t)
  unfolding change add_root sub_root add_edge_to sub_edge_to add_out remove_out clear_outs
      reset_slot
  change-IsCounted (root_added i n) t inside h = h
  change-IsCounted (root_dropped i n) t inside h = elim (Bool-cases (ltb (t.root i) n)) [
    | inl less ↦ rw (change, less) h
    | inr more ↦ rw (change, more) h
  ]
  change-IsCounted (edge_counted i) t inside h = h
  change-IsCounted (edge_dropped i) t inside h = elim (Bool-cases (t.edge i == 0)) [
    | inl none_left ↦ rw (change, none_left) h
    | inr more ↦ rw (change, more) h
  ]
  change-IsCounted (slot_cleared i) t inside h = omega (arith, h, held-update t.outs i [] inside)
  change-IsCounted (slot_reset i) t inside h = omega (arith, h, held-update t.outs i [] inside)
  change-IsCounted (out_added src dst) t inside h = omega (
    arith,
    h,
    held-update t.outs src.index (t.outs src.index ++ dst ∷ []) inside,
    length-append (t.outs src.index) (dst ∷ []),
  )
  change-IsCounted (out_removed src dst) t inside h =
      elim (Option-cases (erase_out dst (t.outs src.index))) [
        | inl gone ↦ rw (change, gone) h
        | inr (left, found) ↦
            rw (change, found)
              (omega (
                arith,
                h,
                held-update t.outs src.index left inside,
                length-erase_out dst (t.outs src.index) left found,
              ))
      ]

  changes-IsCounted_from :
      (cs : List Change) (t : RefTable) → AreInside cs → IsCounted t → IsCounted (changes cs t)
  unfolding changes
  changes-IsCounted_from [] t inside h = h
  changes-IsCounted_from (c ∷ cs) t inside h =
      changes-IsCounted_from cs (change c t) inside.1 (change-IsCounted c t inside.0 h)

  new_table-IsCounted : IsCounted new_table
  new_table-IsCounted = sym (no_edges width)
    where
      no_edges : (n : ℕ) → sum_below n (λ _. 0) ≡ 0
      no_edges zero = refl
      no_edges (suc n) = omega (arith, no_edges n)

-- After any operations on a new table whose slots are all in the table, `liveEdges` is the number of handles
-- that the slots hold.
pub changes-IsCounted :
    (width : ℕ) (cs : List Change) → AreInside width cs → IsCounted width (changes cs new_table)
changes-IsCounted width cs inside =
    changes-IsCounted_from width cs new_table inside (new_table-IsCounted width)
