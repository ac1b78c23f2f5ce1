-- ===== src/Aarc/Owners/Lifetime.antt =====
-- What the calls of the owners' registry do to an owner's token.
use native.Mathlib.Decide.{dec_lt}
use loxis_programming_langua.Prelude.{
  ℕ, zero, suc, ◌+◌, ◌^◌, ◌≤◌, ◌<◌, Bool, true, false, not, Option, none, some, leb, ◌==◌,
  if◌then◌else◌, update, ◌≡◌, ◌≢◌, refl, sym, ap, ◌∙◌, arith, Bool-cases, inl, inr,
}
use loxis_programming_langua.Aarc.Owners.{
  OwnerState, free, active, closing, OwnerToken, Entry, max_owners, OwnerRegistry, new_registry,
  is_state, find_free, acquire_at, acquire, is_current, state_of, begin_close, next_generation,
  release,
}

-- Generations are never 0 and fit a uint32_t.
abbrev pub IsValid : OwnerRegistry → Type 0
IsValid entries = (id : ℕ) → (0 < (entries id).generation) × ((entries id).generation < 2 ^ 32)

pub new_registry-IsValid : IsValid new_registry
new_registry-IsValid id = (omega arith, omega arith)

next_generation_lem :
    (g : ℕ)
    → g < 2 ^ 32
    → (0 < next_generation g) × (next_generation g < 2 ^ 32) × (next_generation g ≢ g)
unfolding next_generation
next_generation_lem g h = ground arith

-- Only the entry of this id is another one.
abbrev pub ChangesOnly : ℕ → OwnerRegistry → OwnerRegistry → Type 0
ChangesOnly id entries entries' = (e : Entry) × (entries' ≡ update entries id e)

update_at : (entries : OwnerRegistry) (id : ℕ) (e : Entry) → update entries id e id ≡ e
update_at entries id e = ground arith

-- What `find_free` found or did not find.
abbrev Found : ℕ → ℕ → OwnerRegistry → Option ℕ → Type 0
Found n id entries none = (i : ℕ) → id ≤ i → i < id + n → is_state (entries i).state free ≡ false
Found n id entries (some i) = (id ≤ i) × (i < id + n) × (is_state (entries i).state free ≡ true)

Found-next :
    (n id : ℕ) (entries : OwnerRegistry) (o : Option ℕ)
    → is_state (entries id).state free ≡ false
    → Found n (id + 1) entries o
    → Found (suc n) id entries o
Found-next n id entries none taken f = λ i le lt. elim (dec_lt id i) [
  | yes later ↦ f i (omega arith) (omega arith)
  | no not_later ↦ ap (λ k. is_state (entries k).state free) (same i le not_later) ∙ taken
]
  where
    same : (i : ℕ) → id ≤ i → (id < i → ⊥) → i ≡ id
    same i le h = omega (arith, le, h)
Found-next n id entries (some i) taken (le, lt, e) = (omega arith, omega arith, e)

find_free-Found : (n id : ℕ) (entries : OwnerRegistry) → Found n id entries (find_free n id entries)
unfolding find_free
find_free-Found zero id entries = λ i le lt. absurd (omega arith)
find_free-Found (suc n) id entries = elim (Bool-cases (is_state (entries id).state free)) [
  | inl y ↦ rw (y, find_free) (omega arith, omega arith, y)
  | inr y ↦ rw (y, find_free) (Found-next n id entries _ y (find_free-Found n (id + 1) entries))
]

-- What `acquire` does: a token of an entry that was free and is active now, or nothing.
abbrev pub IsAcquired : OwnerRegistry → Option OwnerToken × OwnerRegistry → Type 0
IsAcquired entries (none, entries') = entries' ≡ entries
IsAcquired entries (some token, entries') =
    (token.id < max_owners)
    × (is_state (entries token.id).state free ≡ true)
    × (token.generation ≡ (entries token.id).generation)
    × (state_of entries' token ≡ active)
    × ChangesOnly token.id entries entries'

-- `acquire` gives the token of an entry that was free, with the entry's generation, and the token is active
-- now; or it gives none and changes nothing. Other entries stay as they are.
pub acquire-IsAcquired : (entries : OwnerRegistry) → IsAcquired entries (acquire entries)
unfolding acquire acquire_at state_of is_current
acquire-IsAcquired entries = go _ (find_free-Found max_owners 0 entries)
  where
    go : (o : Option ℕ) → Found max_owners 0 entries o → IsAcquired entries (acquire_at entries o)
    go none f = refl
    go (some i) (le, lt, e) = (
      omega (arith, lt),
      e,
      refl,
      rw
          (
            update_at entries i (record (entries i) { state = active }),
            out lt,
            own (entries i).generation,
          )
          refl,
      (_, refl),
    )
      where
        out : i < 0 + max_owners → leb max_owners i ≡ false
        out lt = ground (arith, lt)

        own : (g : ℕ) → (g == g) ≡ true
        own g = ground arith

-- If `acquire` gives none, no entry is free.
pub acquire-none :
    (entries : OwnerRegistry) (id : ℕ)
    → (acquire entries).0 ≡ none
    → id < max_owners
    → is_state (entries id).state free ≡ false
unfolding acquire acquire_at
acquire-none entries id h lt = go _ (find_free-Found max_owners 0 entries) h
  where
    some-ne-none : {A : Type 0} {x : A} → (some x ≡ none) → ⊥
    some-ne-none e = cc

    go :
        (o : Option ℕ)
        → Found max_owners 0 entries o
        → (acquire_at entries o).0 ≡ none
        → is_state (entries id).state free ≡ false
    go none f e = f id (omega arith) (omega (arith, lt))
    go (some i) f e = absurd (some-ne-none e)

-- What closing a token does to it: it takes the state `to` if it was in the state `from`, and else nothing
-- changes.
abbrev pub Moves :
    OwnerState → OwnerState → OwnerRegistry → OwnerToken → Bool × OwnerRegistry → Type 0
Moves from to entries token (true, entries') =
    (is_state (state_of entries token) from ≡ true)
    × (state_of entries' token ≡ to)
    × ChangesOnly token.id entries entries'
Moves from to entries token (false, entries') =
    (is_state (state_of entries token) from ≡ false) × (entries' ≡ entries)

is_current_intro :
    (entries : OwnerRegistry) (token : OwnerToken) (e : Entry)
    → is_current entries token ≡ true
    → e.generation ≡ (entries token.id).generation
    → is_current (update entries token.id e) token ≡ true
unfolding is_current
is_current_intro entries token e h same = ground arith

stale :
    (entries : OwnerRegistry) (token : OwnerToken) (e : Entry)
    → is_current entries token ≡ true
    → e.generation ≢ (entries token.id).generation
    → is_current (update entries token.id e) token ≡ false
unfolding is_current
stale entries token e h other = ground arith

state_now :
    (entries : OwnerRegistry) (token : OwnerToken)
    → is_current entries token ≡ true
    → state_of entries token ≡ (entries token.id).state
unfolding state_of
state_now entries token now = rw now refl

state_old :
    (entries : OwnerRegistry) (token : OwnerToken)
    → is_current entries token ≡ false
    → state_of entries token ≡ free
unfolding state_of
state_old entries token old = rw old refl

abbrev closed_entry : OwnerRegistry → OwnerToken → Entry
closed_entry entries token = record (entries token.id) { state = closing }

closed_state :
    (entries : OwnerRegistry) (token : OwnerToken)
    → is_current entries token ≡ true
    → state_of (update entries token.id (closed_entry entries token)) token ≡ closing
closed_state entries token now =
    state_now _ token (is_current_intro entries token (closed_entry entries token) now refl)
    ∙ ap (λ (e : Entry). e.state) (update_at entries token.id (closed_entry entries token))

-- `beginClose` makes an active token closing, and refuses every other token without a change.
pub begin_close-Moves :
    (entries : OwnerRegistry) (token : OwnerToken)
    → Moves active closing entries token (begin_close entries token)
unfolding begin_close
begin_close-Moves entries token = elim (Bool-cases (is_current entries token)) [
  | inr old ↦ rw old (ap (λ s. is_state s active) (state_old entries token old), refl)
  | inl now ↦ elim (Bool-cases (is_state (entries token.id).state active)) [
    | inr other ↦
        rw (now, other) (ap (λ s. is_state s active) (state_now entries token now) ∙ other, refl)
    | inl e ↦
        rw (now, e)
          (
            ap (λ s. is_state s active) (state_now entries token now) ∙ e,
            closed_state entries token now,
            (_, refl),
          )
  ]
]

abbrev freed_entry : OwnerRegistry → OwnerToken → Entry
freed_entry entries token = record {
  state = free;
  generation = next_generation (entries token.id).generation;
}

freed-stale :
    (entries : OwnerRegistry) (token : OwnerToken)
    → IsValid entries
    → is_current entries token ≡ true
    → is_current (update entries token.id (freed_entry entries token)) token ≡ false
freed-stale entries token v now =
    stale entries token (freed_entry entries token) now (next_generation_lem _ (v token.id).1).2

-- What releasing a token does to it: a closing token is freed and is not current any more, and else nothing
-- changes.
abbrev pub IsReleased : OwnerRegistry → OwnerToken → Bool × OwnerRegistry → Type 0
IsReleased entries token (true, entries') =
    (is_state (state_of entries token) closing ≡ true)
    × (is_current entries' token ≡ false)
    × (entries' ≡ update entries token.id (freed_entry entries token))
    × ((entries' token.id).generation ≢ token.generation)
    × (state_of entries' token ≡ free)
IsReleased entries token (false, entries') =
    (is_state (state_of entries token) closing ≡ false) × (entries' ≡ entries)

current_generation :
    (entries : OwnerRegistry) (token : OwnerToken)
    → is_current entries token ≡ true
    → (entries token.id).generation ≡ token.generation
unfolding is_current
current_generation entries token now = ground (arith, now)

-- `release` frees a closing token, whose entry gets another generation, so that the token is not current
-- afterwards, and it refuses every other token without a change. No other entry changes. Generations are not 0
-- and fit 32 bits.
pub release-IsReleased :
    (entries : OwnerRegistry) (token : OwnerToken)
    → IsValid entries
    → IsReleased entries token (release entries token)
unfolding release
release-IsReleased entries token v = elim (Bool-cases (is_current entries token)) [
  | inr old ↦ rw old (ap (λ s. is_state s closing) (state_old entries token old), refl)
  | inl now ↦ elim (Bool-cases (is_state (entries token.id).state closing)) [
    | inr other ↦
        rw (now, other) (ap (λ s. is_state s closing) (state_now entries token now) ∙ other, refl)
    | inl e ↦
        rw (now, e)
          (
            ap (λ s. is_state s closing) (state_now entries token now) ∙ e,
            freed-stale entries token v now,
            refl,
            another now,
            state_old _ token (freed-stale entries token v now),
          )
  ]
]
  where
    another :
        is_current entries token ≡ true
        → (update entries token.id (freed_entry entries token) token.id).generation
          ≢ token.generation
    another now e = (next_generation_lem _ (v token.id).1).2 (
        ap (λ (x : Entry). x.generation)
          (sym (update_at entries token.id (freed_entry entries token)))
        ∙ e
        ∙ sym (current_generation entries token now))

-- A call of the registry.
pub data Call : Type 0 where
  acquire_call : Call
  close_call : OwnerToken → Call
  release_call : OwnerToken → Call

unfoldable pub after : OwnerRegistry → Call → OwnerRegistry
after entries acquire_call = (acquire entries).1
after entries (close_call token) = (begin_close entries token).1
after entries (release_call token) = (release entries token).1

IsValid-update :
    (entries : OwnerRegistry) (id : ℕ) (e : Entry)
    → IsValid entries
    → (0 < e.generation) × (e.generation < 2 ^ 32)
    → IsValid (update entries id e)
IsValid-update entries id e v h i = elim (Bool-cases (id == i)) [
  | inl y ↦ rw y h
  | inr y ↦ rw y (v i)
]

abbrev ValidAfter : Bool × OwnerRegistry → Type 0
ValidAfter r = IsValid r.1

begin_close-IsValid :
    (entries : OwnerRegistry) (token : OwnerToken)
    → IsValid entries
    → IsValid (begin_close entries token).1
unfolding begin_close
begin_close-IsValid entries token v = go _ _
  where
    go :
        (s t : Bool)
        → ValidAfter (
            if not s
            then (false, entries)
            else if not t
            then (false, entries)
            else (true, update entries token.id (closed_entry entries token)))
    go false t = v
    go true false = v
    go true true = IsValid-update entries token.id _ v (v token.id)

release-IsValid :
    (entries : OwnerRegistry) (token : OwnerToken)
    → IsValid entries
    → IsValid (release entries token).1
unfolding release
release-IsValid entries token v = go _ _
  where
    go :
        (s t : Bool)
        → ValidAfter (
            if not s
            then (false, entries)
            else if not t
            then (false, entries)
            else (true, update entries token.id (freed_entry entries token)))
    go false t = v
    go true false = v
    go true true =
        let n = next_generation_lem _ (v token.id).1 in
        IsValid-update entries token.id _ v (n.0, n.1)

acquire-IsValid : (entries : OwnerRegistry) → IsValid entries → IsValid (acquire entries).1
unfolding acquire acquire_at
acquire-IsValid entries v = go (find_free max_owners 0 entries)
  where
    go : (o : Option ℕ) → IsValid (acquire_at entries o).1
    go none = v
    go (some i) = IsValid-update entries i _ v (v i)

-- Every call keeps the generations away from 0 and in 32 bits.
pub after-IsValid :
    (entries : OwnerRegistry) (call : Call) → IsValid entries → IsValid (after entries call)
unfolding after
after-IsValid entries acquire_call v = acquire-IsValid entries v
after-IsValid entries (close_call token) v = begin_close-IsValid entries token v
after-IsValid entries (release_call token) v = release-IsValid entries token v
