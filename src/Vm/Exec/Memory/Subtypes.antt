-- ===== src/Vm/Exec/Memory/Subtypes.antt =====
-- `IsA` finds the superclasses of a type.
use loxis_programming_langua.Prelude.{
  ℕ, zero, suc, ◌+◌, ◌≡◌, ◌≢◌, ◌↔◌, refl, Bool, true, false, Bool-cases, inl, inr, List, Option,
  none, some, ◌==◌, ==_iff, get_elem?, length, arith,
}
use loxis_programming_langua.Vm.Exec.Memory.{matches_from, type_matches, no_type}
use loxis_programming_langua.Vm.Balance.Whole.{superclasses_first, type_matches-ends}

-- A type is a subtype of itself and of what its superclass is a subtype of.
pub data IsSubtype (parents : List ℕ) (target : ℕ) : ℕ → Type 0 where
  itself : target ≢ no_type → IsSubtype parents target target
  inherited :
      (type_id parent : ℕ)
      → type_id ≢ no_type
      → get_elem? parents type_id ≡ some parent
      → IsSubtype parents target parent
      → IsSubtype parents target type_id

true_found : some true ≢ some false
true_found e = ground arith

false_found : some false ≡ some true → ⊥
false_found e = ground arith

-- The loop goes on at the superclass.
superclass_found :
    (n : ℕ) (parents : List ℕ) (target type_id : ℕ) (o : Option ℕ)
    → type_id ≢ no_type
    → get_elem? parents type_id ≡ o
    → ((p : ℕ) → matches_from n parents target p ≡ some true → IsSubtype parents target p)
    → elim o [ none ↦ some false | some p ↦ matches_from n parents target p ] ≡ some true
    → IsSubtype parents target type_id
superclass_found n parents target type_id none ne at k e = ground arith
superclass_found n parents target type_id (some p) ne at k e = inherited type_id p ne at (k p e)

matches_from-IsSubtype :
    (n : ℕ) (parents : List ℕ) (target type_id : ℕ)
    → matches_from n parents target type_id ≡ some true
    → IsSubtype parents target type_id
unfolding matches_from
matches_from-IsSubtype zero parents target type_id e = ground arith
matches_from-IsSubtype (suc n) parents target type_id e = elim (Bool-cases (type_id == no_type)) [
  | inl t ↦ absurd (false_found (rw t at e))
  | inr f ↦ elim (Bool-cases (type_id == target)) [
    | inl t ↦
        let same : type_id ≡ target = (==_iff type_id target).0 t in
        rw same (itself (λ (z : target ≡ no_type). ground arith))
    | inr g ↦
        superclass_found n parents target type_id _ (λ (z : type_id ≡ no_type). ground arith) refl
          (matches_from-IsSubtype n parents target) (rw (f, g) at e)
  ]
]

matches_from_complete :
    (n : ℕ) (parents : List ℕ) (target type_id : ℕ)
    → IsSubtype parents target type_id
    → matches_from n parents target type_id ≢ some false
unfolding matches_from
matches_from_complete zero parents target type_id s = λ e. ground arith
matches_from_complete (suc n) parents target _ (itself ne) =
    let some_type : (target == no_type) ≡ false = ground arith in
    let same : (target == target) ≡ true = ground arith in rw (some_type, same) true_found
matches_from_complete (suc n) parents target _ (inherited type_id parent ne at s) =
    let some_type : (type_id == no_type) ≡ false = ground arith in
    elim (Bool-cases (type_id == target)) [
      | inl t ↦ rw (some_type, t) true_found
      | inr f ↦ rw (some_type, f, at) (matches_from_complete n parents target parent s)
    ]

decided : (o : Option Bool) → o ≢ none → o ≢ some false → o ≡ some true
decided none a b = absurd (a refl)
decided (some true) a b = refl
decided (some false) a b = absurd (b refl)

-- `IsA` answers yes exactly for the type itself and its superclasses, where the superclass of each type
-- has a smaller index.
pub type_matches_lem :
    (parents : List ℕ) (target type_id : ℕ)
    → superclasses_first 0 parents ≡ true
    → (type_matches parents target type_id ≡ some true) ↔ IsSubtype parents target type_id
unfolding type_matches
type_matches_lem parents target type_id ok = (
  matches_from-IsSubtype (length parents + 2) parents target type_id,
  (λ s.
      decided (type_matches parents target type_id) (type_matches-ends parents target type_id ok)
        (matches_from_complete (length parents + 2) parents target type_id s)),
)
