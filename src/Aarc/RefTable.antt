-- ===== src/Aarc/RefTable.antt =====
-- The forward-only table of references, src/aarc/arc/ref_table_forward.hpp: for each slot two counters and
-- the handles that it holds. The counters start at 0 and no operation takes them below, so the source's
-- signed numbers are natural ones; they and the number of edges stay below the size of memory.
pub mod Counted
mod Tests
use loxis_programming_langua.Prelude.{
  ℕ, ◌+◌, ◌-◌, Bool, true, false, not, ◌&&◌, Option, none, some, List, [], ◌∷◌, ◌++◌, ltb, ◌==◌,
  if◌then◌else◌, update, length,
}
use loxis_programming_langua.Aarc.Cells.{ObjHandle}

pub record RefTable : Type 0 where
  pub root : ℕ → ℕ
  pub edge : ℕ → ℕ
  pub outs : ℕ → List ObjHandle
  pub live_edges : ℕ

abbrev pub new_table : RefTable
new_table = record { root = λ _. 0; edge = λ _. 0; outs = λ _. []; live_edges = 0 }

abbrev pub same_handle : ObjHandle → ObjHandle → Bool
same_handle a b = (a.index == b.index) && (a.gen == b.gen)

unfoldable pub total_count : RefTable → ℕ → ℕ
total_count t i = t.root i + t.edge i

unfoldable pub add_root : ℕ → ℕ → RefTable → RefTable
add_root i n t = record t { root = update t.root i (t.root i + n) }

unfoldable pub sub_root : ℕ → ℕ → RefTable → Bool × RefTable
sub_root i n t =
    if ltb (t.root i) n
    then (false, record t { root = update t.root i 0 })
    else (true, record t { root = update t.root i (t.root i - n) })

unfoldable pub add_edge_to : ℕ → RefTable → RefTable
add_edge_to i t = record t { edge = update t.edge i (t.edge i + 1) }

unfoldable pub sub_edge_to : ℕ → RefTable → Bool × RefTable
sub_edge_to i t =
    if t.edge i == 0 then (false, t) else (true, record t { edge = update t.edge i (t.edge i - 1) })

unfoldable pub add_out : ObjHandle → ObjHandle → RefTable → RefTable
add_out src dst t = record t {
  outs = update t.outs src.index (t.outs src.index ++ dst ∷ []);
  live_edges = t.live_edges + 1;
}

-- The search of `removeOut`, with what is left after the erasure; none where `dst` does not occur.
unfoldable pub erase_out : ObjHandle → List ObjHandle → Option (List ObjHandle)
erase_out dst [] = none
erase_out dst (h ∷ rest) =
    let later = erase_out dst rest in
    if same_handle h dst
    then some rest
    else elim later [ none ↦ none | some left ↦ some (h ∷ left) ]

unfoldable pub remove_out : ObjHandle → ObjHandle → RefTable → Bool × RefTable
unfolding erase_out
remove_out src dst t = elim (erase_out dst (t.outs src.index)) [
  | none ↦ (false, t)
  | some left ↦
      (true, record t { outs = update t.outs src.index left; live_edges = t.live_edges - 1 })
]

unfoldable pub clear_outs : ℕ → RefTable → RefTable
clear_outs i t = record t {
  outs = update t.outs i [];
  live_edges = t.live_edges - length (t.outs i);
}

unfoldable pub reset_slot : ℕ → RefTable → RefTable
reset_slot i t = record {
  root = update t.root i 0;
  edge = update t.edge i 0;
  outs = update t.outs i [];
  live_edges = t.live_edges - length (t.outs i);
}

-- A change of the table, by any of its operations.
pub data Change : Type 0 where
  root_added root_dropped : ℕ → ℕ → Change
  edge_counted edge_dropped slot_cleared slot_reset : ℕ → Change
  out_added out_removed : ObjHandle → ObjHandle → Change

unfoldable pub change : Change → RefTable → RefTable
unfolding add_root sub_root add_edge_to sub_edge_to add_out remove_out clear_outs reset_slot
change (root_added i n) t = add_root i n t
change (root_dropped i n) t = (sub_root i n t).1
change (edge_counted i) t = add_edge_to i t
change (edge_dropped i) t = (sub_edge_to i t).1
change (slot_cleared i) t = clear_outs i t
change (slot_reset i) t = reset_slot i t
change (out_added src dst) t = add_out src dst t
change (out_removed src dst) t = (remove_out src dst t).1

unfoldable pub changes : List Change → RefTable → RefTable
unfolding change
changes [] t = t
changes (c ∷ cs) t = changes cs (change c t)
