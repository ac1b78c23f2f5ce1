-- ===== src/Aarc/Queue/Fifo.antt =====
-- The queue between two threads is first in, first out, for every order of their steps.
use loxis_programming_langua.Prelude.{
  ℕ, ◌+◌, ◌-◌, ◌%◌, ◌^◌, ◌≤◌, ◌<◌, true, false, List, [], ◌∷◌, ◌++◌, some, leb, ◌==◌, update, sub64,
  length, length-append, ◌≡◌, refl, sym, ap, subst, ◌∙◌, arith, Bool-cases, inl, inr,
}
use loxis_programming_langua.Aarc.Queue.{
  push_seen, pop_seen, System, Event, load_head, push, load_tail, pop, after_push, after_pop, step,
  run, start,
}
use loxis_programming_langua.Aarc.Queue.Holds.{IsCapacity, Holds, push-Holds, pop-Holds, first_slot}

module _ {ℓ} {A : Type ℓ} (capacity goal : ℕ) where
  -- A system between steps: what the queue holds, and what each thread last saw of the other. The consumer
  -- has seen the tail at `goal` or further.
  pub record IsFifo (s : System A) (h h0 t0 : ℕ) (xs : List A) : Type ℓ where
    pub holds : Holds capacity s.queue h xs
    pub seen_head : s.seen_head ≡ h0 % 2 ^ 64
    pub head_old : h0 ≤ h
    pub head_near : h + length xs ≤ h0 + capacity
    pub seen_tail : s.seen_tail ≡ t0 % 2 ^ 64
    pub tail_past : h ≤ t0
    pub tail_old : t0 ≤ h + length xs
    pub order : s.pushed ≡ s.popped ++ xs
    pub taken : h ≡ length s.popped
    pub aimed : goal ≤ t0

  abbrev pub IsValid : System A → Type ℓ
  IsValid s = (h : ℕ) × (h0 : ℕ) × (t0 : ℕ) × (xs : List A) × IsFifo s h h0 t0 xs

-- The step that a push takes, by whether it finds room.
pub push_full {ℓ} :
    {A : Type ℓ} (capacity : ℕ) (s : System A) (v : A)
    → leb capacity (sub64 s.queue.tail s.seen_head) ≡ true
    → step capacity s (push v) ≡ s
unfolding step after_push push_seen
push_full capacity s v e = rw e refl

pub push_room {ℓ} :
    {A : Type ℓ} (capacity : ℕ) (s : System A) (v : A)
    → leb capacity (sub64 s.queue.tail s.seen_head) ≡ false
    → step capacity s (push v) ≡ record s {
      queue = record (s.queue) {
        slot = update s.queue.slot (s.queue.tail % capacity) v;
        tail = (s.queue.tail + 1) % 2 ^ 64;
      };
      pushed = s.pushed ++ (v ∷ []);
    }
unfolding step after_push push_seen
push_room capacity s v e = rw e refl

pub pop_empty {ℓ} :
    {A : Type ℓ} (capacity : ℕ) (s : System A)
    → (s.queue.head == s.seen_tail) ≡ true
    → step capacity s pop ≡ s
unfolding step after_pop pop_seen
pop_empty capacity s e = rw e refl

pub pop_some {ℓ} :
    {A : Type ℓ} (capacity : ℕ) (s : System A)
    → (s.queue.head == s.seen_tail) ≡ false
    → step capacity s pop ≡ record s {
      queue = record (s.queue) { head = (s.queue.head + 1) % 2 ^ 64 };
      popped = s.popped ++ (s.queue.slot (s.queue.head % capacity) ∷ []);
    }
unfolding step after_pop pop_seen
pop_some capacity s e = rw e refl

some_injective {ℓ} : {A : Type ℓ} {x y : A} → some x ≡ some y → x ≡ y
some_injective e = cc

pub append_assoc {ℓ} : {A : Type ℓ} (xs ys zs : List A) → (xs ++ ys) ++ zs ≡ xs ++ (ys ++ zs)
append_assoc [] ys zs = refl
append_assoc (x ∷ xs) ys zs = ap (λ l. x ∷ l) (append_assoc xs ys zs)

module _ {ℓ} {A : Type ℓ} (capacity goal : ℕ) (c : IsCapacity capacity) where
  pub step-IsValid :
      (s : System A) (e : Event A)
      → IsValid capacity goal s
      → IsValid capacity goal (step capacity s e)
  unfolding step
  step-IsValid s load_head (h, h0, t0, xs, f) = (
    h,
    h,
    t0,
    xs,
    record {
      holds = f.holds;
      seen_head = f.holds.head;
      head_old = omega arith;
      head_near = omega (arith, f.holds.fits);
      seen_tail = f.seen_tail;
      tail_past = f.tail_past;
      tail_old = f.tail_old;
      order = f.order;
      taken = f.taken;
      aimed = omega (arith, f.aimed, f.tail_old);
    },
  )
  step-IsValid s load_tail (h, h0, t0, xs, f) = (
    h,
    h0,
    h + length xs,
    xs,
    record {
      holds = f.holds;
      seen_head = f.seen_head;
      head_old = f.head_old;
      head_near = f.head_near;
      seen_tail = f.holds.tail;
      tail_past = omega arith;
      tail_old = omega arith;
      order = f.order;
      taken = f.taken;
      aimed = omega (arith, f.aimed, f.tail_old);
    },
  )
  step-IsValid s (push v) (h, h0, t0, xs, f) =
      elim (Bool-cases (leb capacity (sub64 s.queue.tail s.seen_head))) [
        | inl full ↦
            subst (IsValid capacity goal) (sym (push_full capacity s v full)) (h, h0, t0, xs, f)
        | inr room ↦ subst (IsValid capacity goal) (sym (push_room capacity s v room)) (
          h,
          h0,
          t0,
          xs ++ (v ∷ []),
          record {
            holds = push-Holds capacity c s.queue h xs v (some_room room) f.holds;
            seen_head = f.seen_head;
            head_old = f.head_old;
            head_near = omega (arith, near room, length-append xs (v ∷ []));
            seen_tail = f.seen_tail;
            tail_past = f.tail_past;
            tail_old = omega (arith, f.tail_old, length-append xs (v ∷ []));
            order = ap (λ l. l ++ (v ∷ [])) f.order ∙ append_assoc s.popped xs (v ∷ []);
            taken = f.taken;
            aimed = f.aimed;
          },
        )
      ]
    where
      seen : sub64 s.queue.tail s.seen_head ≡ h + length xs - h0
      seen = rw (f.holds.tail, f.seen_head) (omega (arith, f.head_old, f.head_near, c.small))

      near : leb capacity (sub64 s.queue.tail s.seen_head) ≡ false → h + length xs < h0 + capacity
      near room = ground (arith, rw seen at room, f.head_old)

      some_room : leb capacity (sub64 s.queue.tail s.seen_head) ≡ false → length xs < capacity
      some_room room = omega (arith, near room, f.head_old)
  step-IsValid s pop (h, h0, t0, xs, f) = elim (Bool-cases (s.queue.head == s.seen_tail)) [
    | inl empty ↦
        subst (IsValid capacity goal) (sym (pop_empty capacity s empty)) (h, h0, t0, xs, f)
    | inr more ↦
        subst (IsValid capacity goal) (sym (pop_some capacity s more)) (after xs f (not_empty more))
  ]
    where
      not_empty : (s.queue.head == s.seen_tail) ≡ false → h < t0
      not_empty more = ground (arith, f.holds.head, f.seen_tail, f.tail_past, more)

      after :
          (ys : List A)
          → IsFifo capacity goal s h h0 t0 ys
          → h < t0
          → IsValid capacity goal (record s {
            queue = record (s.queue) { head = (s.queue.head + 1) % 2 ^ 64 };
            popped = s.popped ++ (s.queue.slot (s.queue.head % capacity) ∷ []);
          })
      after [] g lt = absurd (omega (arith, g.tail_old, lt))
      after (y ∷ ys) g lt = (
        h + 1,
        h0,
        t0,
        ys,
        record {
          holds = pop-Holds capacity c s.queue h y ys g.holds;
          seen_head = g.seen_head;
          head_old = omega (arith, g.head_old);
          head_near = omega (arith, g.head_near);
          seen_tail = g.seen_tail;
          tail_past = omega (arith, lt);
          tail_old = omega (arith, g.tail_old);
          order =
              g.order
              ∙ ap (λ x. s.popped ++ (x ∷ ys))
                  (some_injective (first_slot capacity c s.queue h y ys g.holds))
              ∙ sym (append_assoc s.popped (s.queue.slot (s.queue.head % capacity) ∷ []) ys);
          taken = omega (
            arith,
            g.taken,
            length-append s.popped (s.queue.slot (s.queue.head % capacity) ∷ []),
          );
          aimed = g.aimed;
        },
      )

  pub run-IsValid :
      (s : System A) (es : List (Event A))
      → IsValid capacity goal s
      → IsValid capacity goal (run capacity s es)
  unfolding run
  run-IsValid s [] v = v
  run-IsValid s (e ∷ es) v = run-IsValid (step capacity s e) es (step-IsValid s e v)

pub start-IsValid {ℓ} : {A : Type ℓ} (capacity : ℕ) (slot : ℕ → A) → IsValid capacity 0 (start slot)
start-IsValid capacity slot = (
  0,
  0,
  0,
  [],
  record {
    holds = record {
      head = refl;
      tail = refl;
      fits = omega arith;
      cells = λ i h. absurd (omega arith);
    };
    seen_head = refl;
    head_old = omega arith;
    head_near = omega arith;
    seen_tail = refl;
    tail_past = omega arith;
    tail_old = omega arith;
    order = refl;
    taken = refl;
    aimed = omega arith;
  },
)

-- For every order of the two threads' steps, with the other side's index loaded at any time before it is
-- used: what was pushed is what was popped, in the same order, and then what the queue still holds, which
-- is at most its capacity. The capacity is a power of two below 2^64.
pub run-fifo {ℓ} :
    {A : Type ℓ} (capacity : ℕ) (slot : ℕ → A) (es : List (Event A))
    → IsCapacity capacity
    → (h : ℕ) × (xs : List A) × Holds capacity (run capacity (start slot) es).queue h xs
      × ((run capacity (start slot) es).pushed ≡ (run capacity (start slot) es).popped ++ xs)
run-fifo capacity slot es c =
    let (h, h0, t0, xs, f) =
      run-IsValid capacity 0 c (start slot) es (start-IsValid capacity slot) in
    (h, xs, f.holds, f.order)
