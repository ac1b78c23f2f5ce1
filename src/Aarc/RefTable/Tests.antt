-- ===== src/Aarc/RefTable/Tests.antt =====
-- A table through an edge twice, one removal, a miss and a reset.
use loxis_programming_langua.Prelude.{ℕ, ◌≡◌, refl, List, [], ◌∷◌, arith}
use loxis_programming_langua.Aarc.Cells.{ObjHandle}
use loxis_programming_langua.Aarc.RefTable.{
  new_table, Change, root_added, root_dropped, slot_reset, out_added, out_removed, changes,
}
use loxis_programming_langua.Aarc.RefTable.Counted.{IsCounted, changes-IsCounted}

abbrev at : ℕ → ℕ → ObjHandle
at index gen = record { index = index; gen = gen }

abbrev some_changes : List Change
some_changes =
    root_added 0 2
    ∷ out_added (at 0 1) (at 1 1)
    ∷ out_added (at 0 1) (at 1 1)
    ∷ out_added (at 2 1) (at 0 1)
    ∷ out_removed (at 0 1) (at 1 1)
    ∷ out_removed (at 0 1) (at 1 2)
    ∷ root_dropped 0 3
    ∷ slot_reset 2
    ∷ []

some_changes_run : (changes some_changes new_table).live_edges ≡ 1
unfolding changes
some_changes_run = refl

changes-IsCounted_example : IsCounted 3 (changes some_changes new_table)
changes-IsCounted_example = changes-IsCounted 3 some_changes (
  omega arith,
  (
    omega arith,
    (omega arith, (omega arith, (omega arith, (omega arith, (omega arith, (omega arith, tt)))))),
  ),
)
