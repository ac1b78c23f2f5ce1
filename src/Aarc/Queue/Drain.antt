-- ===== src/Aarc/Queue/Drain.antt =====
-- What the consumer's snapshot of the tail promises it.
use loxis_programming_langua.Prelude.{
  ℕ, suc, ◌+◌, ◌%◌, ◌^◌, ◌≤◌, List, [], ◌∷◌, ◌++◌, leb, ◌==◌, sub64, length, length-append, ◌≡◌,
  refl, sym, ap, ◌∙◌, arith, Bool-cases, ==_iff, inl, inr,
}
use loxis_programming_langua.Aarc.Queue.{
  System, Event, load_head, push, load_tail, pop, step, run, start,
}
use loxis_programming_langua.Aarc.Queue.Holds.{IsCapacity}
use loxis_programming_langua.Aarc.Queue.Fifo.{
  IsValid, push_full, push_room, pop_empty, pop_some, append_assoc, step-IsValid, run-IsValid,
  start-IsValid,
}

-- How often the consumer tries to pop.
abbrev pub pops {ℓ} : {A : Type ℓ} → List (Event A) → ℕ
pops [] = 0
pops (pop ∷ es) = suc (pops es)
pops (load_head ∷ es) = pops es
pops (load_tail ∷ es) = pops es
pops (push _ ∷ es) = pops es

module _ {ℓ} {A : Type ℓ} (capacity : ℕ) where
  run-append :
      (s : System A) (es ds : List (Event A))
      → run capacity s (es ++ ds) ≡ run capacity (run capacity s es) ds
  unfolding run
  run-append s [] ds = refl
  run-append s (e ∷ es) ds = run-append (step capacity s e) es ds

  append-nil : (xs : List A) → xs ++ [] ≡ xs
  append-nil [] = refl
  append-nil (x ∷ xs) = ap (λ l. x ∷ l) (append-nil xs)

  step_pushed :
      (s : System A) (e : Event A)
      → (more : List A) × ((step capacity s e).pushed ≡ s.pushed ++ more)
  unfolding step
  step_pushed s load_head = ([], sym (append-nil s.pushed))
  step_pushed s load_tail = ([], sym (append-nil s.pushed))
  step_pushed s (push v) = elim (Bool-cases (leb capacity (sub64 s.queue.tail s.seen_head))) [
    | inl full ↦ (
      [],
      ap (λ (t : System A). t.pushed) (push_full capacity s v full) ∙ sym (append-nil s.pushed),
    )
    | inr room ↦ (v ∷ [], ap (λ (t : System A). t.pushed) (push_room capacity s v room))
  ]
  step_pushed s pop = elim (Bool-cases (s.queue.head == s.seen_tail)) [
    | inl empty ↦ (
      [],
      ap (λ (t : System A). t.pushed) (pop_empty capacity s empty) ∙ sym (append-nil s.pushed),
    )
    | inr some_left ↦ (
      [],
      ap (λ (t : System A). t.pushed) (pop_some capacity s some_left) ∙ sym (append-nil s.pushed),
    )
  ]

  -- What was pushed stays pushed.
  run_pushed :
      (s : System A) (es : List (Event A))
      → (more : List A) × ((run capacity s es).pushed ≡ s.pushed ++ more)
  unfolding run
  run_pushed s [] = ([], sym (append-nil s.pushed))
  run_pushed s (e ∷ es) =
      let (a, first) = step_pushed s e in
      let (b, rest) = run_pushed (step capacity s e) es in
      (a ++ b, rest ∙ ap (λ l. l ++ b) first ∙ append_assoc s.pushed a b)

  step_popped : (s : System A) (e : Event A) → length s.popped ≤ length (step capacity s e).popped
  unfolding step
  step_popped s load_head = omega arith
  step_popped s load_tail = omega arith
  step_popped s (push v) = elim (Bool-cases (leb capacity (sub64 s.queue.tail s.seen_head))) [
    | inl full ↦ rw (push_full capacity s v full) (omega arith)
    | inr room ↦ rw (push_room capacity s v room) (omega arith)
  ]
  step_popped s pop = elim (Bool-cases (s.queue.head == s.seen_tail)) [
    | inl empty ↦ rw (pop_empty capacity s empty) (omega arith)
    | inr more ↦
        rw (pop_some capacity s more)
          (omega (arith, length-append s.popped (s.queue.slot (s.queue.head % capacity) ∷ [])))
  ]

  module _ (goal : ℕ) (c : IsCapacity capacity) where
    -- A pop takes a message, or all messages up to the goal are taken.
    pop_popped :
        (s : System A)
        → IsValid capacity goal s
        → (n : ℕ) → goal ≤ length s.popped + suc n
        → goal ≤ length (step capacity s pop).popped + n
    pop_popped s (h, h0, t0, xs, f) n l = elim (Bool-cases (s.queue.head == s.seen_tail)) [
      | inl empty ↦
          let same : h % 2 ^ 64 ≡ t0 % 2 ^ 64 =
            sym f.holds.head ∙ (==_iff s.queue.head s.seen_tail).0 empty ∙ f.seen_tail in
          let all : t0 ≡ h = omega (arith, same, f.tail_past, f.tail_old, f.holds.fits, c.small) in
          rw (pop_empty capacity s empty) (omega (arith, all, f.taken, f.aimed))
      | inr more ↦
          rw (pop_some capacity s more)
            (omega (arith, l, length-append s.popped (s.queue.slot (s.queue.head % capacity) ∷ [])))
    ]

    run_popped :
        (s : System A) (es : List (Event A))
        → IsValid capacity goal s
        → goal ≤ length s.popped + pops es
        → goal ≤ length (run capacity s es).popped
    unfolding run
    run_popped s [] v l = omega (arith, l)
    run_popped s (load_head ∷ es) v l =
        run_popped (step capacity s load_head) es (step-IsValid capacity goal c s load_head v)
          (omega (arith, l, step_popped s load_head))
    run_popped s (load_tail ∷ es) v l =
        run_popped (step capacity s load_tail) es (step-IsValid capacity goal c s load_tail v)
          (omega (arith, l, step_popped s load_tail))
    run_popped s (push x ∷ es) v l =
        run_popped (step capacity s (push x)) es (step-IsValid capacity goal c s (push x) v)
          (omega (arith, l, step_popped s (push x)))
    run_popped s (pop ∷ es) v l =
        run_popped (step capacity s pop) es (step-IsValid capacity goal c s pop v)
          (pop_popped s v (pops es) l)

-- The shorter of two beginnings of a list begins the longer one.
begins {ℓ} :
    {A : Type ℓ} (xs ys us bs : List A)
    → xs ++ us ≡ ys ++ bs
    → length xs ≤ length ys
    → (more : List A) × (ys ≡ xs ++ more)
begins [] ys us bs e l = (ys, refl)
begins (x ∷ xs) [] us bs e l = absurd (omega (arith, l))
begins (x ∷ xs) (y ∷ ys) us bs e l =
    let heads : x ≡ y = cc e in
    let tails : xs ++ us ≡ ys ++ bs = cc e in
    let (more, rest) = begins xs ys us bs tails (omega (arith, l)) in
    (more, ap (λ z. z ∷ ys) (sym heads) ∙ ap (λ l. x ∷ l) rest)

-- When the consumer loads the tail and then tries to pop as often as the capacity, then it has got all that was
-- pushed before that load, in order, whatever else the two threads do meanwhile. The capacity is a power of two
-- below 2^64.
pub run-load_tail {ℓ} :
    {A : Type ℓ} (capacity : ℕ) (slot : ℕ → A) (es ds : List (Event A))
    → IsCapacity capacity
    → capacity ≤ pops ds
    → (more : List A) × ((run capacity (start slot) (es ++ load_tail ∷ ds)).popped
        ≡ (run capacity (start slot) es).pushed ++ more)
unfolding step run
run-load_tail {A = A} capacity slot es ds c often =
    let s = run capacity (start slot) es in
    let (h, h0, t0, xs, f) =
      run-IsValid capacity 0 c (start slot) es (start-IsValid capacity slot) in
    let t = step capacity s load_tail in
    let goal = length s.pushed in
    let whole : length s.pushed ≡ h + length xs =
      ap length f.order ∙ length-append s.popped xs ∙ omega (arith, f.taken) in
    let aimed : IsValid capacity goal t = (
      h,
      h0,
      h + length xs,
      xs,
      record {
        holds = f.holds;
        seen_head = f.seen_head;
        head_old = f.head_old;
        head_near = f.head_near;
        seen_tail = f.holds.tail;
        tail_past = omega arith;
        tail_old = omega arith;
        order = f.order;
        taken = f.taken;
        aimed = omega (arith, whole);
      },
    ) in
    let enough : goal ≤ length t.popped + pops ds =
      omega (arith, whole, f.taken, f.holds.fits, often) in
    let got = run_popped capacity goal c t ds aimed enough in
    let (h', _, _, ys, g) = run-IsValid capacity goal c t ds aimed in
    let (later, grown) = run_pushed capacity t ds in
    let (more, e) = begins s.pushed (run capacity t ds).popped later ys (sym grown ∙ g.order) got in
    (
      more,
      ap (λ (u : System A). u.popped) (run-append capacity (start slot) es (load_tail ∷ ds)) ∙ e,
    )
