-- ===== src/Aarc/Owners/Stale.antt =====
-- A token of the owners' registry after its release, and the calls that follow. The generations of an entry
-- have 32 bits and begin again.
use loxis_programming_langua.Prelude.{
  ℕ, suc, ◌+◌, ◌-◌, ◌^◌, ◌≤◌, ◌<◌, Bool, true, false, not, List, [], ◌∷◌, Option, none, some, subst,
  ◌==◌, if◌then◌else◌, update, ◌≡◌, refl, sym, ap, ◌∙◌, ◌⊎◌, arith, Bool-cases, ==_iff, inl, inr,
}
use loxis_programming_langua.Aarc.Owners.{
  free, closing, OwnerToken, Entry, max_owners, OwnerRegistry, find_free, acquire_at, acquire,
  is_current, state_of, begin_close, next_generation, release,
}
use loxis_programming_langua.Aarc.Owners.Lifetime.{
  IsValid, Call, acquire_call, close_call, release_call, after, after-IsValid,
}

-- A sequence of calls, of any owners.
unfoldable pub after_all : OwnerRegistry → List Call → OwnerRegistry
unfolding after
after_all entries [] = entries
after_all entries (call ∷ calls) = after_all (after entries call) calls

abbrev pub releases : List Call → ℕ
releases [] = 0
releases (release_call _ ∷ calls) = suc (releases calls)
releases (acquire_call ∷ calls) = releases calls
releases (close_call _ ∷ calls) = releases calls

-- `g'` comes `k` steps after `g` in the round of the generations 1 to 2^32 - 1.
abbrev Ahead : ℕ → ℕ → ℕ → Type 0
Ahead k g g' = (g' ≡ g + k) ⊎ (g' + (2 ^ 32 - 1) ≡ g + k)

next_generation-Ahead :
    (k g g' : ℕ)
    → (0 < g') × (g' < 2 ^ 32)
    → k < 2 ^ 32 - 2
    → (0 < g) × (g < 2 ^ 32)
    → Ahead k g g'
    → Ahead (k + 1) g (next_generation g')
unfolding next_generation
next_generation-Ahead k g g' r l q h = ground (arith, h)

-- The generation of an entry after a call: the same, or the next one where the call was a release.
abbrev Stepped : OwnerRegistry → ℕ → Call → Type 0
Stepped entries id call =
    ((after entries call id).generation ≡ (entries id).generation)
    ⊎ ((releases (call ∷ []) ≡ 1)
        × ((after entries call id).generation ≡ next_generation (entries id).generation))

update_generation :
    (entries : OwnerRegistry) (i id : ℕ) (e : Entry)
    → e.generation ≡ (entries i).generation
    → (update entries i e id).generation ≡ (entries id).generation
update_generation entries i id e h = elim (Bool-cases (i == id)) [
  | inl y ↦ rw y (h ∙ ap (λ k. (entries k).generation) ((==_iff i id).0 y))
  | inr y ↦ rw y refl
]

abbrev Moved : OwnerRegistry → ℕ → Call → Bool × OwnerRegistry → Type 0
Moved entries id call r =
    ((r.1 id).generation ≡ (entries id).generation)
    ⊎ ((releases (call ∷ []) ≡ 1) × ((r.1 id).generation ≡ next_generation (entries id).generation))

releases_cons :
    (call : Call) (calls : List Call)
    → releases (call ∷ calls) ≡ releases (call ∷ []) + releases calls
releases_cons acquire_call calls = omega arith
releases_cons (close_call t) calls = omega arith
releases_cons (release_call t) calls = omega arith

after-Stepped : (entries : OwnerRegistry) (id : ℕ) (call : Call) → Stepped entries id call
unfolding after acquire begin_close release acquire_at
after-Stepped entries id acquire_call = go (find_free max_owners 0 entries)
  where
    go :
        (o : Option ℕ)
        → (((acquire_at entries o).1 id).generation ≡ (entries id).generation)
          ⊎ ((releases (acquire_call ∷ []) ≡ 1)
              × (((acquire_at entries o).1 id).generation
                  ≡ next_generation (entries id).generation))
    go none = inl refl
    go (some i) = inl (update_generation entries i id _ refl)
after-Stepped entries id (close_call token) = go _ _
  where
    closed : OwnerRegistry
    closed = update entries token.id (record (entries token.id) { state = closing })

    go :
        (s t : Bool)
        → Moved entries id
            (close_call token)
            (if not s then (false, entries) else if not t then (false, entries) else (true, closed))
    go false t = inl refl
    go true false = inl refl
    go true true = inl (update_generation entries token.id id _ refl)
after-Stepped entries id (release_call token) = go _ _
  where
    freed : OwnerRegistry
    freed =
        update entries token.id
          (record { state = free; generation = next_generation (entries token.id).generation })

    go :
        (s t : Bool)
        → Moved entries id
            (release_call token)
            (if not s then (false, entries) else if not t then (false, entries) else (true, freed))
    go false t = inl refl
    go true false = inl refl
    go true true = elim (Bool-cases (token.id == id)) [
      | inl y ↦
          rw y (
            inr (refl, ap (λ k. next_generation (entries k).generation) ((==_iff token.id id).0 y)))
      | inr y ↦ rw y (inl refl)
    ]

-- The generation that some calls lead to comes so many steps later, one for a release at most.
after_all-Ahead :
    (calls : List Call) (entries : OwnerRegistry) (id k g : ℕ)
    → IsValid entries
    → (0 < g) × (g < 2 ^ 32)
    → Ahead k g (entries id).generation
    → k + releases calls < 2 ^ 32 - 1
    → (j : ℕ) × (k ≤ j)
      × (j ≤ k + releases calls)
      × Ahead j g (after_all entries calls id).generation
unfolding after_all
after_all-Ahead [] entries id k g v r h lt = (k, omega arith, omega arith, h)
after_all-Ahead (call ∷ calls) entries id k g v r h lt =
    let v' = after-IsValid entries call v in
    elim (after-Stepped entries id call) [
      | inl same ↦
          let (j, a, b, d) =
            after_all-Ahead calls (after entries call) id k g v' r (subst (Ahead k g) (sym same) h)
              (omega (arith, lt, releases_cons call calls)) in
          (j, a, omega (arith, b, releases_cons call calls), d)
      | inr (one, moved) ↦
          let (j, a, b, d) =
            after_all-Ahead calls (after entries call) id (k + 1) g v' r
              (subst (Ahead (k + 1) g) (sym moved) (
                next_generation-Ahead k g (entries id).generation (v id)
                  (omega (arith, lt, one, releases_cons call calls)) r h))
              (omega (arith, lt, one, releases_cons call calls)) in
          (j, omega (arith, a), omega (arith, b, one, releases_cons call calls), d)
    ]

-- A generation that some steps, but no full round, lead to is another one.
Ahead-ne : (k g g' : ℕ) → 0 < k → k < 2 ^ 32 - 1 → Ahead k g g' → (g' == g) ≡ false
Ahead-ne k g g' p q h = ground (arith, h)

-- The token is not current, and the calls refuse it.
abbrev pub IsRefused : OwnerRegistry → OwnerToken → Type 0
IsRefused entries token =
    (is_current entries token ≡ false)
    × (state_of entries token ≡ free)
    × (begin_close entries token ≡ (false, entries))
    × (release entries token ≡ (false, entries))

refused :
    (entries : OwnerRegistry) (token : OwnerToken)
    → is_current entries token ≡ false
    → IsRefused entries token
unfolding state_of begin_close release
refused entries token old = (old, rw old refl, rw old refl, rw old refl)

not_current :
    (entries : OwnerRegistry) (token : OwnerToken)
    → ((entries token.id).generation == token.generation) ≡ false
    → is_current entries token ≡ false
unfolding is_current
not_current entries token h = ground (arith, h)

released_generation :
    (entries : OwnerRegistry) (token : OwnerToken)
    → (release entries token).0 ≡ true
    → ((release entries token).1 token.id).generation
      ≡ next_generation (entries token.id).generation
unfolding release
released_generation entries token h = go _ _ h
  where
    false-ne-true : (false ≡ true) → ⊥
    false-ne-true e = cc

    freed : OwnerRegistry
    freed =
        update entries token.id
          (record { state = free; generation = next_generation (entries token.id).generation })

    own : (token.id == token.id) ≡ true
    own = ground arith

    choice : Bool → Bool → Bool × OwnerRegistry
    choice s t =
        if not s then (false, entries) else if not t then (false, entries) else (true, freed)

    go :
        (s t : Bool)
        → (choice s t).0 ≡ true
        → ((choice s t).1 token.id).generation ≡ next_generation (entries token.id).generation
    go false t e = absurd (false-ne-true e)
    go true false e = absurd (false-ne-true e)
    go true true e = rw own refl

released :
    (entries : OwnerRegistry) (token : OwnerToken)
    → (release entries token).0 ≡ true
    → ((entries token.id).generation ≡ token.generation)
      × (((release entries token).1 token.id).generation
          ≡ next_generation (entries token.id).generation)
unfolding is_current
released entries token h = elim (Bool-cases (is_current entries token)) [
  | inr old ↦ absurd (
      false-ne-true
        (sym (ap (λ (r : Bool × OwnerRegistry). r.0) (refused entries token old).3) ∙ h))
  | inl now ↦ (ground (arith, now), released_generation entries token h)
]
  where
    false-ne-true : (false ≡ true) → ⊥
    false-ne-true e = cc

-- After `release` succeeds for a token, and after any calls that follow, in which entries may be acquired,
-- closed and released again, the token is not current: its state is free, and closing or releasing it is
-- refused and changes nothing. Fewer than 2^32 - 2 of the calls are of `release`; generations are not 0 and
-- fit 32 bits.
pub release-after_all-IsRefused :
    (entries : OwnerRegistry) (token : OwnerToken) (calls : List Call)
    → IsValid entries
    → (release entries token).0 ≡ true
    → releases calls < 2 ^ 32 - 2
    → IsRefused (after_all (release entries token).1 calls) token
unfolding after
release-after_all-IsRefused entries token calls v h lt =
    let (same, next) = released entries token h in
    let (j, a, b, d) =
      after_all-Ahead calls (release entries token).1 token.id 1 (entries token.id).generation
        (after-IsValid entries (release_call token) v) (v token.id)
        (subst (Ahead 1 _) (sym next)
          (next_generation-Ahead 0 _ _ (v token.id) (omega arith) (v token.id) (inl (omega arith))))
        (omega (arith, lt)) in
    refused _ token (
      not_current _ token (
        ap (λ g. (after_all (release entries token).1 calls token.id).generation == g) (sym same)
        ∙ (Ahead-ne j _ _ (omega (arith, a)) (omega (arith, b, lt)) d)))
