-- ===== src/Aarc/Queue/Holds.antt =====
-- What a queue holds: a list, which the two indices delimit, each modulo 2^64.
use Prim.Native.Nat.{◌∣◌}
use native.Mathlib.Decide.{dec_lt}
use native.Mathlib.Nat.{mod-mod_of_dvd, div-add-mod}
use loxis_programming_langua.Prelude.{
  ℕ, zero, suc, ◌+◌, ◌%◌, ◌^◌, ◌≤◌, ◌<◌, List, [], ◌∷◌, ◌++◌, some, update, length, get_elem?,
  length-append, ◌≡◌, ◌≢◌, refl, sym, ap, ◌∙◌, arith,
}
use loxis_programming_langua.Aarc.Queue.{SpscQueue}

-- A capacity: a power of two below 2^64, of which only this is used.
pub record IsCapacity (capacity : ℕ) : Type 0 where
  pub positive : 0 < capacity
  pub divides : capacity ∣ 2 ^ 64
  pub small : capacity < 2 ^ 64

-- Two indices less than a capacity apart have different slots.
slots_apart : (capacity a b : ℕ) → a < b → b < a + capacity → a % capacity ≢ b % capacity
slots_apart capacity a b lt near e = grind (arith, div-add-mod a capacity, div-add-mod b capacity)

module _ {ℓ} {A : Type ℓ} (capacity : ℕ) where
  -- `q` holds `xs`, and `h` messages were taken out before.
  pub record Holds (q : SpscQueue A) (h : ℕ) (xs : List A) : Type ℓ where
    pub head : q.head ≡ h % 2 ^ 64
    pub tail : q.tail ≡ (h + length xs) % 2 ^ 64
    pub fits : length xs ≤ capacity
    pub cells : (i : ℕ) → i < length xs → get_elem? xs i ≡ some (q.slot ((h + i) % capacity))

update_self {ℓ} : {A : Type ℓ} (f : ℕ → A) (p : ℕ) (v : A) → update f p v p ≡ v
update_self f p v = ground arith

update_other {ℓ} : {A : Type ℓ} (f : ℕ → A) {p r : ℕ} (v : A) → p ≢ r → update f p v r ≡ f r
update_other f v ne = ground arith

get_elem?-append_left {ℓ} :
    {A : Type ℓ} (xs ys : List A) (i : ℕ) → i < length xs → get_elem? (xs ++ ys) i ≡ get_elem? xs i
get_elem?-append_left [] ys i h = absurd (omega arith)
get_elem?-append_left (x ∷ xs) ys zero h = refl
get_elem?-append_left (x ∷ xs) ys (suc i) h = get_elem?-append_left xs ys i (omega arith)

get_elem?-append_last {ℓ} :
    {A : Type ℓ} (xs : List A) (v : A) → get_elem? (xs ++ (v ∷ [])) (length xs) ≡ some v
get_elem?-append_last [] v = refl
get_elem?-append_last (x ∷ xs) v = get_elem?-append_last xs v

-- A slot's index is the same for the wrapped index as for the whole one.
slot_index : {capacity : ℕ} (a : ℕ) → IsCapacity capacity → a % 2 ^ 64 % capacity ≡ a % capacity
slot_index {capacity} a c = mod-mod_of_dvd capacity a c.divides

module _ {ℓ} {A : Type ℓ} (capacity : ℕ) (c : IsCapacity capacity) (q : SpscQueue A) (h : ℕ) where
  pub push-Holds :
      (xs : List A) (v : A)
      → length xs < capacity
      → Holds capacity q h xs
      → Holds capacity
          (record q { slot = update q.slot (q.tail % capacity) v; tail = (q.tail + 1) % 2 ^ 64 })
          h
          (xs ++ (v ∷ []))
  push-Holds xs v room held = record {
    head = held.head;
    tail = omega (arith, held.tail, length-append xs (v ∷ []));
    fits = omega (arith, length-append xs (v ∷ []));
    cells = λ i lt. elim (dec_lt i (length xs)) [
      | yes old ↦
          get_elem?-append_left xs (v ∷ []) i old
          ∙ held.cells i old
          ∙ ap some (sym (update_other q.slot v (other i old)))
      | no last ↦ rw (at_end i lt last) (get_elem?-append_last xs v ∙ ap some (sym (written v)))
    ];
  }
    where
      index : q.tail % capacity ≡ (h + length xs) % capacity
      index = rw held.tail (slot_index (h + length xs) c)

      written : (w : A) → update q.slot (q.tail % capacity) w ((h + length xs) % capacity) ≡ w
      written w = rw index (update_self q.slot _ w)

      other : (i : ℕ) → i < length xs → q.tail % capacity ≢ (h + i) % capacity
      other i old e =
          slots_apart capacity (h + i) (h + length xs) (omega arith)
            (omega (arith, held.fits, room)) (sym e ∙ index)

      at_end : (i : ℕ) → i < length (xs ++ (v ∷ [])) → (i < length xs → ⊥) → i ≡ length xs
      at_end i lt last = omega (arith, length-append xs (v ∷ []), last)

  pub pop-Holds :
      (x : A) (xs : List A)
      → Holds capacity q h (x ∷ xs)
      → Holds capacity (record q { head = (q.head + 1) % 2 ^ 64 }) (h + 1) xs
  pop-Holds x xs held = record {
    head = omega (arith, held.head);
    tail = omega (arith, held.tail);
    fits = omega (arith, held.fits);
    cells = λ i lt.
        held.cells (suc i) (omega arith) ∙ ap (λ (k : ℕ). some (q.slot (k % capacity))) (next i);
  }
    where
      next : (i : ℕ) → h + suc i ≡ h + 1 + i
      next i = omega arith

  pub first_slot :
      (x : A) (xs : List A)
      → Holds capacity q h (x ∷ xs)
      → some x ≡ some (q.slot (q.head % capacity))
  first_slot x xs held = held.cells 0 (omega arith) ∙ ap (λ (k : ℕ). some (q.slot k)) same
    where
      same : (h + 0) % capacity ≡ q.head % capacity
      same = rw (held.head, slot_index h c) (ap (λ (k : ℕ). k % capacity) zero_add)
        where
          zero_add : h + 0 ≡ h
          zero_add = omega arith
