-- ===== src/Aarc/RootBag/Tests.antt =====
-- A bag through an insertion, a second count, a removal and a miss.
use loxis_programming_langua.Prelude.{
  ◌≡◌, refl, Bool, true, false, Option, none, some, List, [], ◌∷◌, arith,
}
use loxis_programming_langua.Aarc.RootBag.{
  RootBag, new_bag, BagCall, add_call, remove_call, calls, mix,
}
use loxis_programming_langua.Aarc.RootBag.Multiset.{IsMultiset, calls-IsMultiset}

abbrev some_calls : List BagCall
some_calls =
    add_call 7
    ∷ add_call 9
    ∷ add_call 7
    ∷ remove_call 9
    ∷ remove_call 9
    ∷ remove_call 7
    ∷ add_call 5
    ∷ []

abbrev bag_of : Option (List Bool × RootBag) → RootBag
bag_of none = new_bag
bag_of (some (_, bag)) = bag

abbrev answers_of : Option (List Bool × RootBag) → List Bool
answers_of none = []
answers_of (some (bs, _)) = bs

some_calls_run :
    (answers_of (calls some_calls new_bag) ≡ true ∷ false ∷ true ∷ [])
    × ((bag_of (calls some_calls new_bag)).size ≡ 2)
    × ((bag_of (calls some_calls new_bag)).capacity ≡ 128)
unfolding calls mix
some_calls_run = (refl, refl, refl)

calls-IsMultiset_example : IsMultiset some_calls
calls-IsMultiset_example =
    calls-IsMultiset some_calls (refl, (refl, (refl, (refl, (refl, (refl, (refl, tt)))))))
      (omega arith)
