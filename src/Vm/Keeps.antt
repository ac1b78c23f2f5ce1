-- ===== src/Vm/Keeps.antt =====
-- What an action does to a property of the machine's state: the rules for the ways in which actions are
-- built, and the properties that every instruction keeps if the machine's primitives do.
use loxis_programming_langua.Prelude.{
  ℕ, ◌≡◌, refl, Bool, true, false, List, Option, none, some, if◌then◌else◌,
}
use loxis_programming_langua.Vm.Data.{Vm}
use loxis_programming_langua.Vm.Action.{
  Result, ok, unwound, panicked, undefined, diverged, left_out, uncaught, Action, pure, stop, gets,
  or_stop, modify, ◌>>=◌, continue,
}

-- A property of the state where an action returns, and one where it unwinds; a loop that does not end is
-- excluded, and the other ends are ends of the run.
abbrev pub Ends : {G A : Type 0} → (Vm G → Type 0) → (A → Vm G → Type 0) → Result A → Vm G → Type 0
Ends I Q (ok a) s = Q a s
Ends I Q unwound s = I s
Ends I Q panicked s = Unit
Ends I Q undefined s = Unit
Ends I Q diverged s = ⊥
Ends I Q left_out s = Unit
Ends I Q (uncaught t n) s = Unit

-- From `P`, the action returns with `Q`.
pub record Leads {G A : Type 0} (I P : Vm G → Type 0) (m : Action G A) (Q : A → Vm G → Type 0)
    : Type 0 where
  pub at : (s : Vm G) → P s → Ends I Q (m s).0 (m s).1

-- The action keeps `I`, also where it unwinds.
pub record Keeps {G A : Type 0} (I : Vm G → Type 0) (m : Action G A) : Type 0 where
  pub at : (s : Vm G) → I s → Ends I (λ _. I) (m s).0 (m s).1

-- The results that end a run.
pub data IsEnd {A : Type 0} : Result A → Type 0 where
  panicked_end : IsEnd panicked
  undefined_end : IsEnd undefined
  left_out_end : IsEnd left_out
  uncaught_end : (t n : List ℕ) → IsEnd (uncaught t n)

Ends-end :
    {G A : Type 0} (I : Vm G → Type 0) (Q : A → Vm G → Type 0) {r : Result A} (e : IsEnd r)
    (s : Vm G)
    → Ends I Q r s
Ends-end I Q panicked_end s = tt
Ends-end I Q undefined_end s = tt
Ends-end I Q left_out_end s = tt
Ends-end I Q (uncaught_end t n) s = tt

Ends-bind :
    {G A B : Type 0} (I : Vm G → Type 0) (R : A → Vm G → Type 0) (Q : B → Vm G → Type 0)
    (f : A → Action G B)
    → ((a : A) → Leads I (R a) (f a) Q)
    → (r : Result A) (s : Vm G) → Ends I R r s
    → Ends I Q (continue r f s).0 (continue r f s).1
Ends-bind I R Q f l (ok a) s e = (l a).at s e
Ends-bind I R Q f l unwound s e = e
Ends-bind I R Q f l panicked s e = tt
Ends-bind I R Q f l undefined s e = tt
Ends-bind I R Q f l diverged s e = absurd e
Ends-bind I R Q f l left_out s e = tt
Ends-bind I R Q f l (uncaught t n) s e = tt

Ends-map :
    {G A : Type 0} (I : Vm G → Type 0) (Q Q' : A → Vm G → Type 0) (r : Result A) (s : Vm G)
    → ((a : A) → Q a s → Q' a s)
    → Ends I Q r s
    → Ends I Q' r s
Ends-map I Q Q' (ok a) s f e = f a e
Ends-map I Q Q' unwound s f e = e
Ends-map I Q Q' panicked s f e = tt
Ends-map I Q Q' undefined s f e = tt
Ends-map I Q Q' diverged s f e = e
Ends-map I Q Q' left_out s f e = tt
Ends-map I Q Q' (uncaught t n) s f e = tt

module _ {G A : Type 0} {I : Vm G → Type 0} where
  pub Leads-map :
      {P : Vm G → Type 0} {m : Action G A} {Q Q' : A → Vm G → Type 0}
      → ((a : A) (s : Vm G) → Q a s → Q' a s)
      → Leads I P m Q
      → Leads I P m Q'
  Leads-map {m = m} {Q = Q} {Q' = Q'} f l = record {
    at = λ s h. Ends-map I Q Q' (m s).0 (m s).1 (λ a. f a (m s).1) (l.at s h);
  }

  pub of_leads : {m : Action G A} → Leads I I m (λ _. I) → Keeps I m
  of_leads l = record { at = l.at }

  pub to_leads : {m : Action G A} → Keeps I m → Leads I I m (λ _. I)
  to_leads k = record { at = k.at }

  pub Leads-pure :
      {P : Vm G → Type 0} {Q : A → Vm G → Type 0} (a : A)
      → ((s : Vm G) → P s → Q a s)
      → Leads I P (pure a) Q
  unfolding pure
  Leads-pure a f = record { at = f }

  pub Leads-stop :
      {P : Vm G → Type 0} {Q : A → Vm G → Type 0} {r : Result A} (e : IsEnd r)
      → Leads I P (stop r) Q
  unfolding stop
  Leads-stop {Q = Q} e = record { at = λ s _. Ends-end I Q e s }

  pub Leads-if :
      {P : Vm G → Type 0} {Q : A → Vm G → Type 0} (b : Bool) {m n : Action G A}
      → (b ≡ true → Leads I P m Q)
      → (b ≡ false → Leads I P n Q)
      → Leads I P (if b then m else n) Q
  Leads-if true lm ln = lm refl
  Leads-if false lm ln = ln refl

  pub Leads-weaken :
      {P P' : Vm G → Type 0} {m : Action G A} {Q : A → Vm G → Type 0}
      → ((s : Vm G) → P' s → P s)
      → Leads I P m Q
      → Leads I P' m Q
  Leads-weaken f l = record { at = λ s h. l.at s (f s h) }

  pub Leads-gets :
      {P : Vm G → Type 0} {Q : A → Vm G → Type 0} (f : Vm G → A)
      → ((s : Vm G) → P s → Q (f s) s)
      → Leads I P (gets f) Q
  unfolding gets
  Leads-gets f q = record { at = q }

  -- A block that starts from the state as it is.
  pub Leads-state :
      {P : Vm G → Type 0} {Q : A → Vm G → Type 0} {f : Vm G → Action G A}
      → ((a : Vm G) → Leads I (λ t. (a ≡ t) × P t) (f a) Q)
      → Leads I P (gets (λ s. s) >>= f) Q
  unfolding ◌>>=◌ gets
  Leads-state l = record { at = λ s h. (l s).at s (refl, h) }

  pub Keeps-pure : (a : A) → Keeps I (pure a)
  unfolding pure
  Keeps-pure a = record { at = λ s h. h }

  pub Keeps-stop : {r : Result A} → IsEnd r → Keeps I (stop r)
  unfolding stop
  Keeps-stop e = record { at = λ s _. Ends-end I (λ _. I) e s }

  -- To unwind keeps what holds then.
  pub Keeps-unwound : Keeps I (stop {A = A} unwound)
  unfolding stop
  Keeps-unwound = record { at = λ s h. h }

  pub Keeps-gets : (f : Vm G → A) → Keeps I (gets f)
  unfolding gets
  Keeps-gets f = record { at = λ s h. h }

  pub Keeps-or_stop : (o : Option A) {r : Result A} → IsEnd r → Keeps I (or_stop o r)
  unfolding or_stop
  Keeps-or_stop none e = record { at = λ s _. Ends-end I (λ _. I) e s }
  Keeps-or_stop (some a) e = record { at = λ s h. h }

  pub Keeps-some : (o : Option A) (r : Result A) → (o ≡ none → ⊥) → Keeps I (or_stop o r)
  unfolding or_stop
  Keeps-some none r k = absurd (k refl)
  Keeps-some (some a) r k = record { at = λ s h. h }

  pub Keeps-if :
      (b : Bool) {m n : Action G A} → Keeps I m → Keeps I n → Keeps I (if b then m else n)
  Keeps-if true km kn = km
  Keeps-if false km kn = kn

module _ {G : Type 0} {I : Vm G → Type 0} where
  pub Leads-modify :
      {P : Vm G → Type 0} {Q : Unit → Vm G → Type 0} (f : Vm G → Vm G)
      → ((s : Vm G) → P s → Q tt (f s))
      → Leads I P (modify f) Q
  unfolding modify
  Leads-modify f q = record { at = q }

  pub Keeps-modify : (f : Vm G → Vm G) → ((s : Vm G) → I s → I (f s)) → Keeps I (modify f)
  unfolding modify
  Keeps-modify f k = record { at = k }

module _ {G A B : Type 0} {I : Vm G → Type 0} where
  pub Leads-bind :
      {P : Vm G → Type 0} {R : A → Vm G → Type 0} {Q : B → Vm G → Type 0} {m : Action G A}
      {f : A → Action G B}
      → Leads I P m R
      → ((a : A) → Leads I (R a) (f a) Q)
      → Leads I P (m >>= f) Q
  unfolding ◌>>=◌
  Leads-bind {R = R} {Q = Q} {m = m} {f = f} lm lf = record {
    at = λ s h. Ends-bind I R Q f lf (m s).0 (m s).1 (lm.at s h);
  }

  pub Keeps-bind :
      {m : Action G A} {f : A → Action G B}
      → Keeps I m
      → ((a : A) → Keeps I (f a))
      → Keeps I (m >>= f)
  Keeps-bind km kf = of_leads (Leads-bind (to_leads km) (λ a. to_leads (kf a)))

pub ruleset keeps_rules = (
  Keeps-pure, Keeps-stop, Keeps-unwound, Keeps-gets, Keeps-or_stop, Keeps-if, Keeps-bind,
  panicked_end, undefined_end, left_out_end,
)
