-- ===== src/Aarc/Owners.antt =====
-- The owners' registry, src/aarc/arc/owner_registry.hpp and src/aarc/core/owner.hpp. A mutex makes each
-- operation one step.
pub mod Lifetime
pub mod Stale
use loxis_programming_langua.Prelude.{
  ℕ, zero, suc, ◌+◌, ◌%◌, ◌^◌, Bool, true, false, not, Option, none, some, leb, ◌==◌, if◌then◌else◌,
  update,
}

pub data OwnerState : Type 0 where
  free active closing : OwnerState

pub record OwnerToken : Type 0 where
  pub id : ℕ
  pub generation : ℕ

pub record Entry : Type 0 where
  pub state : OwnerState
  pub generation : ℕ

-- `CellPool::kMaxOwners`.
abbrev pub max_owners : ℕ
max_owners = 64

-- The array of entries, of which the first `max_owners` count.
abbrev pub OwnerRegistry : Type 0
OwnerRegistry = ℕ → Entry

abbrev pub new_registry : OwnerRegistry
new_registry _ = record { state = free; generation = 1 }

abbrev pub is_state : OwnerState → OwnerState → Bool
is_state free free = true
is_state active active = true
is_state closing closing = true
is_state _ _ = false

-- The loop of `acquire` over `n` entries from `id` on.
unfoldable pub find_free : ℕ → ℕ → OwnerRegistry → Option ℕ
find_free zero id entries = none
find_free (suc n) id entries = elim (is_state (entries id).state free) [
  | true ↦ some id
  | false ↦ find_free n (id + 1) entries
]

acquire_at : OwnerRegistry → Option ℕ → Option OwnerToken × OwnerRegistry
acquire_at entries none = (none, entries)
acquire_at entries (some id) = (
  some (record { id = id; generation = (entries id).generation }),
  update entries id (record (entries id) { state = active }),
)

unfoldable pub acquire : OwnerRegistry → Option OwnerToken × OwnerRegistry
unfolding acquire_at
acquire entries = acquire_at entries (find_free max_owners 0 entries)

-- `current`: whether the token is the one of its entry now.
unfoldable pub is_current : OwnerRegistry → OwnerToken → Bool
is_current entries token =
    if leb max_owners token.id then false else (entries token.id).generation == token.generation

-- `state`.
unfoldable pub state_of : OwnerRegistry → OwnerToken → OwnerState
unfolding is_current
state_of entries token = if is_current entries token then (entries token.id).state else free

unfoldable pub begin_close : OwnerRegistry → OwnerToken → Bool × OwnerRegistry
unfolding is_current
begin_close entries token =
    if not (is_current entries token)
    then (false, entries)
    else if not (is_state (entries token.id).state active)
    then (false, entries)
    else (true, update entries token.id (record (entries token.id) { state = closing }))

-- A generation of uint32_t that skips 0.
unfoldable pub next_generation : ℕ → ℕ
next_generation generation =
    let g = (generation + 1) % 2 ^ 32 in if g == 0 then (g + 1) % 2 ^ 32 else g

unfoldable pub release : OwnerRegistry → OwnerToken → Bool × OwnerRegistry
unfolding is_current next_generation
release entries token =
    if not (is_current entries token)
    then (false, entries)
    else if not (is_state (entries token.id).state closing)
    then (false, entries)
    else (
      true,
      update entries token.id
          (record { state = free; generation = next_generation (entries token.id).generation }),
    )
