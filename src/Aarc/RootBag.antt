-- ===== src/Aarc/RootBag.antt =====
-- A mutator's multiset of roots, src/aarc/core/root_bag.hpp: a table with open addressing, whose slots are
-- functions of the index. The capacity is a power of two, so the source's `& mask` is the remainder, and the
-- counts of slots stay below the size of memory.
mod Tests
pub mod Walk
pub mod Probe
pub mod Table
pub mod Change
pub mod Place
pub mod Put
pub mod Remove
pub mod Grow
pub mod Multiset
use Prim.Native.Nat.{bit_xor}
use loxis_programming_langua.Prelude.{
  ℕ, zero, suc, ◌+◌, ◌-◌, ◌*◌, ◌/◌, ◌%◌, ◌^◌, Bool, true, false, not, ◌&&◌, ◌||◌, Option, none,
  some, List, [], ◌∷◌, ltb, leb, length, ◌==◌, if◌then◌else◌, update,
}

-- `keys_.size()` is the capacity.
pub record RootBag : Type 0 where
  pub capacity : ℕ
  pub keys : ℕ → ℕ
  pub vals : ℕ → ℕ
  pub size : ℕ
  pub tombstones : ℕ

-- `kEmpty` and `kTombstone`.
abbrev pub empty_key : ℕ
empty_key = 2 ^ 64 - 1

abbrev pub tombstone_key : ℕ
tombstone_key = 2 ^ 64 - 2

abbrev pub is_live : ℕ → Bool
is_live k = not (k == empty_key) && not (k == tombstone_key)

abbrev pub new_bag : RootBag
new_bag = record { capacity = 0; keys = λ _. empty_key; vals = λ _. 0; size = 0; tombstones = 0 }

unfoldable pub mix : ℕ → ℕ
mix x =
    let a = bit_xor x (x / 2 ^ 33) in
    let b = (a * 0xff51afd7ed558ccd) % 2 ^ 64 in bit_xor b (b / 2 ^ 33)

-- The first slot of a key.
abbrev pub home : ℕ → ℕ → ℕ
home capacity key = mix key % capacity

abbrev pub next_slot : ℕ → ℕ → ℕ
next_slot capacity i = (i + 1) % capacity

-- The loop of `nextPow2`; each round adds one at least, so `n` rounds suffice.
abbrev pub next_pow2_from : ℕ → ℕ → ℕ → ℕ
next_pow2_from zero p n = p
next_pow2_from (suc fuel) p n =
    let rest = next_pow2_from fuel (p * 2) n in if ltb p n then rest else p

unfoldable pub next_pow2 : ℕ → ℕ
next_pow2 n = next_pow2_from n 1 n

unfoldable pub needs_grow : RootBag → Bool
needs_grow bag =
    (bag.capacity == 0)
    || leb bag.capacity ((bag.size + 1) * 2)
    || leb bag.capacity (bag.tombstones * 2)

-- `firstTomb`, once the slot `i` was seen.
abbrev pub first_tomb : RootBag → ℕ → Option ℕ → Option ℕ
first_tomb bag i (some t) = some t
first_tomb bag i none = if bag.keys i == tombstone_key then some i else none

-- An absent key takes the earliest tombstone, or else the empty slot.
abbrev pub take_slot : RootBag → ℕ → Option ℕ → ℕ × RootBag
take_slot bag i none = (i, bag)
take_slot bag i (some t) = (t, record bag { tombstones = bag.tombstones - 1 })

-- The loop of `probeInsert`; none where the fuel runs out.
unfoldable pub probe_insert : ℕ → ℕ → ℕ → Option ℕ → RootBag → Option (ℕ × RootBag)
probe_insert zero key i first bag = none
probe_insert (suc fuel) key i first bag =
    let rest = probe_insert fuel key (next_slot bag.capacity i) (first_tomb bag i first) bag in
    if bag.keys i == key
    then some (i, bag)
    else if bag.keys i == empty_key
    then some (take_slot bag i first)
    else rest

-- The loop of `probeFind`: none where the fuel runs out, and inside it none for `kNotFound`.
unfoldable pub probe_find : ℕ → ℕ → ℕ → RootBag → Option (Option ℕ)
probe_find zero key i bag = none
probe_find (suc fuel) key i bag =
    let rest = probe_find fuel key (next_slot bag.capacity i) bag in
    if bag.keys i == key then some (some i) else if bag.keys i == empty_key then some none else rest

-- Places a key of the old table, without counting it.
reinsert : ℕ → ℕ → RootBag → Option RootBag
unfolding probe_insert
reinsert key val bag = elim (probe_insert bag.capacity key (home bag.capacity key) none bag) [
  | none ↦ none
  | some (slot, next) ↦
      some (record next { keys = update next.keys slot key; vals = update next.vals slot val })
]

-- The loop of `grow` over `n` slots of the old table from `i` on.
unfoldable pub refill : ℕ → ℕ → RootBag → RootBag → Option RootBag
unfolding reinsert
refill zero i old bag = some bag
refill (suc n) i old bag =
    let skipped = refill n (i + 1) old bag in
    if is_live (old.keys i)
    then elim (reinsert (old.keys i) (old.vals i) bag) [
      | none ↦ none
      | some next ↦ refill n (i + 1) old next
    ]
    else skipped

-- `kMinCapacity`.
abbrev pub min_capacity : ℕ
min_capacity = 128

abbrev pub grown_capacity : RootBag → ℕ
grown_capacity bag =
    let need = (bag.size + 1) * 2 + 1 in
    next_pow2 (if ltb need min_capacity then min_capacity else need)

unfoldable pub grow : RootBag → Option RootBag
unfolding refill next_pow2
grow bag = refill bag.capacity 0 bag (record bag {
  capacity = grown_capacity bag;
  keys = λ _. empty_key;
  vals = λ _. 0;
  tombstones = 0;
})

-- `add` once there is room.
unfoldable pub put : ℕ → RootBag → Option RootBag
unfolding probe_insert
put key bag = elim (probe_insert bag.capacity key (home bag.capacity key) none bag) [
  | none ↦ none
  | some (slot, next) ↦ some (
      if next.keys slot == key
      then record next { vals = update next.vals slot ((next.vals slot + 1) % 2 ^ 32) }
      else record next {
        keys = update next.keys slot key;
        vals = update next.vals slot 1;
        size = next.size + 1;
      })
]

unfoldable pub add : ℕ → RootBag → Option RootBag
unfolding grow put needs_grow
add key bag =
    if needs_grow bag then elim (grow bag) [ none ↦ none | some big ↦ put key big ] else put key bag

-- `--vals_[idx]`, and the tombstone of a key that went.
take_one : ℕ → RootBag → RootBag
take_one idx bag =
    let less = (bag.vals idx + 2 ^ 32 - 1) % 2 ^ 32 in
    let lowered = record bag { vals = update bag.vals idx less } in
    if less == 0
    then record lowered {
      keys = update bag.keys idx tombstone_key;
      tombstones = bag.tombstones + 1;
      size = bag.size - 1;
    }
    else lowered

unfoldable pub remove_one : ℕ → RootBag → Option (Bool × RootBag)
unfolding probe_find take_one
remove_one key bag =
    if bag.capacity == 0
    then some (false, bag)
    else elim (probe_find bag.capacity key (home bag.capacity key) bag) [
      | none ↦ none
      | some none ↦ some (false, bag)
      | some (some idx) ↦ some (true, take_one idx bag)
    ]

-- `each`: what it is called on, over `n` slots from `i` on.
unfoldable pub each_from : ℕ → ℕ → RootBag → List (ℕ × ℕ)
each_from zero i bag = []
each_from (suc n) i bag =
    let rest = each_from n (i + 1) bag in
    if is_live (bag.keys i) then (bag.keys i, bag.vals i) ∷ rest else rest

unfoldable pub each : RootBag → List (ℕ × ℕ)
unfolding each_from
each bag = each_from bag.capacity 0 bag

-- A sequence of calls; `removeOne` answers.
pub data BagCall : Type 0 where
  add_call remove_call : ℕ → BagCall

-- What a call leaves, and its answer before the others'.
abbrev pub answer : Bool → Option (List Bool × RootBag) → Option (List Bool × RootBag)
answer b none = none
answer b (some (bs, bag)) = some (b ∷ bs, bag)

unfoldable pub calls : List BagCall → RootBag → Option (List Bool × RootBag)
unfolding add remove_one
calls [] bag = some ([], bag)
calls (add_call key ∷ rest) bag = elim (add key bag) [ none ↦ none | some next ↦ calls rest next ]
calls (remove_call key ∷ rest) bag = elim (remove_one key bag) [
  | none ↦ none
  | some (found, next) ↦ answer found (calls rest next)
]
