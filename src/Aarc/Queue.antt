-- ===== src/Aarc/Queue.antt =====
-- The queue between one producer and one consumer, src/aarc/core/spsc_queue.hpp. `seen` is the value
-- that the other side's index had when it was loaded, which may be an old one by the time it is used.
pub mod Fifo
pub mod Ops
pub mod Drain
pub mod Holds
use loxis_programming_langua.Prelude.{
  ℕ, ◌+◌, ◌-◌, ◌%◌, ◌^◌, Bool, true, false, List, [], ◌∷◌, ◌++◌, Option, none, some, leb, ltb, ◌==◌,
  if◌then◌else◌, update, sub64,
}

pub record SpscQueue {ℓ} (A : Type ℓ) : Type ℓ where
  pub slot : ℕ → A
  pub head : ℕ
  pub tail : ℕ

module _ {ℓ} {A : Type ℓ} (capacity : ℕ) where
  -- `tryPush`, with the head that the producer loaded. The capacity is a power of two, so that the mask
  -- is a remainder.
  unfoldable pub push_seen : SpscQueue A → ℕ → A → Bool × SpscQueue A
  push_seen q seen v = if leb capacity (sub64 q.tail seen) then (false, q) else (
    true,
    record q { slot = update q.slot (q.tail % capacity) v; tail = (q.tail + 1) % 2 ^ 64 },
  )

  unfoldable pub try_push : SpscQueue A → A → Bool × SpscQueue A
  unfolding push_seen
  try_push q v = push_seen q q.head v

  -- `tryPop`, with the tail that the consumer loaded.
  unfoldable pub pop_seen : SpscQueue A → ℕ → Option A × SpscQueue A
  pop_seen q seen =
      if q.head == seen
      then (none, q)
      else (some (q.slot (q.head % capacity)), record q { head = (q.head + 1) % 2 ^ 64 })

  unfoldable pub try_pop : SpscQueue A → Option A × SpscQueue A
  unfolding pop_seen
  try_pop q = pop_seen q q.tail

-- `empty` and `size`.
unfoldable pub is_empty {ℓ} : {A : Type ℓ} → SpscQueue A → Bool
is_empty q = q.head == q.tail

unfoldable pub size {ℓ} : {A : Type ℓ} → SpscQueue A → ℕ
size q = if leb q.head q.tail then q.tail - q.head else 0

-- The two threads: each loads the other's index at some time and uses it later. `pushed` and `popped`
-- are the messages that went in and came out so far.
pub record System {ℓ} (A : Type ℓ) : Type ℓ where
  pub queue : SpscQueue A
  pub seen_head : ℕ
  pub seen_tail : ℕ
  pub pushed : List A
  pub popped : List A

pub data Event {ℓ} (A : Type ℓ) : Type ℓ where
  load_head : Event A
  push : A → Event A
  load_tail : Event A
  pop : Event A

module _ {ℓ} {A : Type ℓ} (capacity : ℕ) where
  after_push : System A → A → Bool × SpscQueue A → System A
  after_push s v (true, q) = record s { queue = q; pushed = s.pushed ++ (v ∷ []) }
  after_push s v (false, q) = record s { queue = q }

  after_pop : System A → Option A × SpscQueue A → System A
  after_pop s (some v, q) = record s { queue = q; popped = s.popped ++ (v ∷ []) }
  after_pop s (none, q) = record s { queue = q }

  unfoldable pub step : System A → Event A → System A
  unfolding after_push after_pop
  step s load_head = record s { seen_head = s.queue.head }
  step s (push v) = after_push s v (push_seen capacity s.queue s.seen_head v)
  step s load_tail = record s { seen_tail = s.queue.tail }
  step s pop = after_pop s (pop_seen capacity s.queue s.seen_tail)

  unfoldable pub run : System A → List (Event A) → System A
  run s [] = s
  run s (e ∷ es) = run (step s e) es

-- `SpscQueue()`, before anything was loaded; the slots hold some value.
abbrev pub start {ℓ} : {A : Type ℓ} → (ℕ → A) → System A
start slot = record {
  queue = record { slot = slot; head = 0; tail = 0 };
  seen_head = 0;
  seen_tail = 0;
  pushed = [];
  popped = [];
}
