-- ===== src/Aarc/Tests.antt =====
-- A queue of four slots, and an owner's life.
use native.Mathlib.Nat.{dvd-mul_right}
use loxis_programming_langua.Prelude.{
  none, ℕ, zero, suc, ◌+◌, ◌-◌, ◌<◌, get_elem?, ◌%◌, ◌^◌, true, false, List, [], ◌∷◌, ◌++◌, some,
  ◌≡◌, refl, arith,
}
use loxis_programming_langua.Aarc.Owners.{
  OwnerRegistry, OwnerToken, new_registry, acquire, find_free, begin_close, release, is_current,
  next_generation, is_state, free, active, closing,
}
use loxis_programming_langua.Aarc.Owners.Stale.{after_all, IsRefused, release-after_all-IsRefused}
use loxis_programming_langua.Aarc.Owners.Lifetime.{
  Call, IsValid, new_registry-IsValid, IsAcquired, acquire-IsAcquired, acquire-none, Moves,
  begin_close-Moves, IsReleased, release-IsReleased, acquire_call, close_call, release_call, after,
  after-IsValid,
}
use loxis_programming_langua.Aarc.Queue.{
  size, SpscQueue, try_push, try_pop, push_seen, pop_seen, Event, load_head, push, load_tail, pop,
  step, run, start,
}
use loxis_programming_langua.Aarc.Queue.Holds.{IsCapacity, Holds}
use loxis_programming_langua.Aarc.Queue.Fifo.{run-fifo}
use loxis_programming_langua.Aarc.Queue.Drain.{run-load_tail}
use loxis_programming_langua.Aarc.Queue.Ops.{try_push_room, try_push_full, try_pop_first, size_lem}

four-IsCapacity : IsCapacity 4
four-IsCapacity = record {
  positive = omega arith;
  divides = dvd-mul_right 4 (2 ^ 62);
  small = omega arith;
}

abbrev zeros : ℕ → ℕ
zeros _ = 0

-- The producer fills the queue with what it saw of the head; one push is refused, although a message was
-- popped in between, until it looks again.
abbrev events : List (Event ℕ)
events =
    push 1
    ∷ push 2
    ∷ load_tail
    ∷ push 3
    ∷ push 4
    ∷ pop
    ∷ push 5
    ∷ load_head
    ∷ push 6
    ∷ pop
    ∷ pop
    ∷ []

events_popped :
    ((run 4 (start zeros) events).popped ≡ 1 ∷ 2 ∷ [])
    × ((run 4 (start zeros) events).pushed ≡ 1 ∷ 2 ∷ 3 ∷ 4 ∷ 6 ∷ [])
unfolding run step push_seen pop_seen
events_popped = (refl, refl)

run-fifo_example :
    (h : ℕ) × (xs : List ℕ) × Holds 4 (run 4 (start zeros) events).queue h xs
    × ((run 4 (start zeros) events).pushed ≡ (run 4 (start zeros) events).popped ++ xs)
run-fifo_example = run-fifo 4 zeros events four-IsCapacity

-- The consumer looks at the tail once and tries four times, while the producer goes on.
abbrev later_events : List (Event ℕ)
later_events = pop ∷ push 9 ∷ pop ∷ load_head ∷ pop ∷ pop ∷ []

run-load_tail_example :
    (more : List ℕ) × ((run 4 (start zeros) (events ++ load_tail ∷ later_events)).popped
      ≡ (run 4 (start zeros) events).pushed ++ more)
run-load_tail_example = run-load_tail 4 zeros events later_events four-IsCapacity (omega arith)

-- Four messages round the end of the indices.
abbrev full_queue : SpscQueue ℕ
full_queue = record { slot = λ i. i + 10; head = 2 ^ 64 - 2; tail = 2 }

full_queue_cells :
    (i : ℕ)
    → i < 4
    → get_elem? (12 ∷ 13 ∷ 10 ∷ 11 ∷ []) i ≡ some (full_queue.slot ((2 ^ 64 - 2 + i) % 4))
full_queue_cells zero h = refl
full_queue_cells (suc zero) h = refl
full_queue_cells (suc (suc zero)) h = refl
full_queue_cells (suc (suc (suc zero))) h = refl
full_queue_cells (suc (suc (suc (suc i)))) h = absurd (omega arith)

full_queue-Holds : Holds 4 full_queue (2 ^ 64 - 2) (12 ∷ 13 ∷ 10 ∷ 11 ∷ [])
full_queue-Holds = record { head = refl; tail = refl; fits = omega arith; cells = full_queue_cells }

try_push_full_example : try_push 4 full_queue 9 ≡ (false, full_queue)
try_push_full_example =
    try_push_full 4 full_queue (2 ^ 64 - 2) (12 ∷ 13 ∷ 10 ∷ 11 ∷ []) 9 four-IsCapacity
      full_queue-Holds refl

abbrev popped_queue : SpscQueue ℕ
popped_queue = (try_pop 4 full_queue).1

popped_one :
    ((try_pop 4 full_queue).0 ≡ some 12)
    × Holds 4 (try_pop 4 full_queue).1 (2 ^ 64 - 2 + 1) (13 ∷ 10 ∷ 11 ∷ [])
popped_one =
    try_pop_first 4 full_queue (2 ^ 64 - 2) 12 (13 ∷ 10 ∷ 11 ∷ []) four-IsCapacity full_queue-Holds

pushed_again :
    ((try_push 4 popped_queue 9).0 ≡ true)
    × Holds 4 (try_push 4 popped_queue 9).1 (2 ^ 64 - 2 + 1) (13 ∷ 10 ∷ 11 ∷ 9 ∷ [])
pushed_again =
    try_push_room 4 popped_queue (2 ^ 64 - 2 + 1) (13 ∷ 10 ∷ 11 ∷ []) 9 four-IsCapacity popped_one.1
      (omega arith)

abbrev small_queue : SpscQueue ℕ
small_queue = record { slot = λ i. i + 10; head = 2; tail = 4 }

small_queue-Holds : Holds 4 small_queue 2 (12 ∷ 13 ∷ [])
small_queue-Holds = record {
  head = refl;
  tail = refl;
  fits = omega arith;
  cells = small_queue_cells;
}
  where
    small_queue_cells :
        (i : ℕ) → i < 2 → get_elem? (12 ∷ 13 ∷ []) i ≡ some (small_queue.slot ((2 + i) % 4))
    small_queue_cells zero h = refl
    small_queue_cells (suc zero) h = refl
    small_queue_cells (suc (suc i)) h = absurd (omega arith)

size_lem_example : size small_queue ≡ 2
size_lem_example = size_lem 4 small_queue 2 (12 ∷ 13 ∷ []) small_queue-Holds (omega arith)

-- Owners: the first token is acquired, closed and released.
abbrev one_owner : OwnerRegistry
one_owner = (acquire new_registry).1

abbrev token : OwnerToken
token = record { id = 0; generation = 1 }

abbrev closing_owner : OwnerRegistry
closing_owner = (begin_close one_owner token).1

closing_owner-IsValid : IsValid closing_owner
unfolding acquire after
closing_owner-IsValid =
    after-IsValid one_owner (close_call token)
      (after-IsValid new_registry acquire_call new_registry-IsValid)

acquire-IsAcquired_example : IsAcquired one_owner (acquire one_owner)
acquire-IsAcquired_example = acquire-IsAcquired one_owner

begin_close-Moves_example : Moves active closing one_owner token (begin_close one_owner token)
begin_close-Moves_example = begin_close-Moves one_owner token

release-IsReleased_example : IsReleased closing_owner token (release closing_owner token)
release-IsReleased_example = release-IsReleased closing_owner token closing_owner-IsValid

can_release : (release closing_owner token).0 ≡ true
unfolding acquire find_free begin_close release is_current
can_release = refl

-- The entry is acquired again, and its next owner is closed and released and acquired again.
abbrev later_calls : List Call
later_calls =
    acquire_call
    ∷ close_call (record { id = 0; generation = 2 })
    ∷ release_call (record { id = 0; generation = 2 })
    ∷ acquire_call
    ∷ []

release-after_all-IsRefused_example :
    IsRefused (after_all (release closing_owner token).1 later_calls) token
release-after_all-IsRefused_example =
    release-after_all-IsRefused closing_owner token later_calls closing_owner-IsValid can_release
      (omega arith)

-- The third owner of the entry is active then.
third_is_current :
    is_current
      (after_all (release closing_owner token).1 later_calls)
      (record { id = 0; generation = 3 })
    ≡ true
unfolding after_all after acquire find_free begin_close release is_current next_generation
third_is_current = refl

after-IsValid_example : IsValid (after closing_owner (release_call token))
after-IsValid_example = after-IsValid closing_owner (release_call token) closing_owner-IsValid

-- Every entry is in use.
abbrev busy : OwnerRegistry
busy _ = record { state = active; generation = 7 }

busy-none : (acquire busy).0 ≡ none
unfolding acquire find_free
busy-none = refl

acquire-none_example : is_state (busy 63).state free ≡ false
acquire-none_example = acquire-none busy 63 busy-none (omega arith)
