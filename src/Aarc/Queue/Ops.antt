-- ===== src/Aarc/Queue/Ops.antt =====
-- Each operation of the queue by itself, when what it loads is what is there.
use loxis_programming_langua.Prelude.{
  ℕ, ◌+◌, ◌^◌, ◌<◌, true, false, List, [], ◌∷◌, ◌++◌, some, leb, ◌==◌, sub64, length, ◌≡◌, refl,
  sym, arith,
}
use loxis_programming_langua.Aarc.Queue.{
  SpscQueue, push_seen, pop_seen, try_push, try_pop, is_empty, size,
}
use loxis_programming_langua.Aarc.Queue.Holds.{IsCapacity, Holds, push-Holds, pop-Holds, first_slot}

-- A push to a queue with room succeeds, and puts the message behind the others. The capacity is a power of two
-- below 2^64.
pub try_push_room {ℓ} :
    {A : Type ℓ} (capacity : ℕ) (q : SpscQueue A) (h : ℕ) (xs : List A) (v : A)
    → IsCapacity capacity
    → Holds capacity q h xs
    → length xs < capacity
    → ((try_push capacity q v).0 ≡ true)
      × Holds capacity (try_push capacity q v).1 h (xs ++ (v ∷ []))
unfolding try_push push_seen
try_push_room capacity q h xs v c held room =
    rw not_full (refl, push-Holds capacity c q h xs v room held)
  where
    seen : sub64 q.tail q.head ≡ length xs
    seen = rw (held.head, held.tail) (omega (arith, held.fits, c.small))

    not_full : leb capacity (sub64 q.tail q.head) ≡ false
    not_full = rw seen (ground (arith, room))

-- A push to a full queue is refused and changes nothing. The capacity is a power of two
-- below 2^64.
pub try_push_full {ℓ} :
    {A : Type ℓ} (capacity : ℕ) (q : SpscQueue A) (h : ℕ) (xs : List A) (v : A)
    → IsCapacity capacity
    → Holds capacity q h xs
    → length xs ≡ capacity
    → try_push capacity q v ≡ (false, q)
unfolding try_push push_seen
try_push_full capacity q h xs v c held full = rw is_full refl
  where
    seen : sub64 q.tail q.head ≡ length xs
    seen = rw (held.head, held.tail) (omega (arith, held.fits, c.small))

    is_full : leb capacity (sub64 q.tail q.head) ≡ true
    is_full = rw seen (ground (arith, full))

-- A pop takes the oldest message of a queue that holds one. The capacity is a power of two
-- below 2^64.
pub try_pop_first {ℓ} :
    {A : Type ℓ} (capacity : ℕ) (q : SpscQueue A) (h : ℕ) (x : A) (xs : List A)
    → IsCapacity capacity
    → Holds capacity q h (x ∷ xs)
    → ((try_pop capacity q).0 ≡ some x) × Holds capacity (try_pop capacity q).1 (h + 1) xs
unfolding try_pop pop_seen
try_pop_first capacity q h x xs c held =
    rw more (sym (first_slot capacity c q h x xs held), pop-Holds capacity c q h x xs held)
  where
    more : (q.head == q.tail) ≡ false
    more = ground (arith, held.head, held.tail, held.fits, c.small)

-- `empty` tells whether the queue holds nothing, also where an index has wrapped. The capacity is a power of two
-- below 2^64.
pub is_empty_lem {ℓ} :
    {A : Type ℓ} (capacity : ℕ) (q : SpscQueue A) (h : ℕ) (xs : List A)
    → IsCapacity capacity
    → Holds capacity q h xs
    → is_empty q ≡ (length xs == 0)
unfolding is_empty
is_empty_lem capacity q h xs c held = ground (arith, held.head, held.tail, held.fits, c.small)

-- `size` is the number of messages held, as long as no more than 2^64 - 1 were pushed in all.
pub size_lem {ℓ} :
    {A : Type ℓ} (capacity : ℕ) (q : SpscQueue A) (h : ℕ) (xs : List A)
    → Holds capacity q h xs
    → h + length xs < 2 ^ 64
    → size q ≡ length xs
unfolding size
size_lem capacity q h xs held few = ground (arith, held.head, held.tail, few)
