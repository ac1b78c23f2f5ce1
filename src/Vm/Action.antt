-- ===== src/Vm/Action.antt =====
-- What a step of the machine does: it changes the state, and returns or stops. The state comes back
-- also when it stops.
use loxis_programming_langua.Prelude.{Option, none, some}
use loxis_programming_langua.Bytecode.Emit.{Bytes}
use loxis_programming_langua.Vm.Data.{Vm}

-- `unwound` is the throw of `RuntimeUnwind`, after which the loop goes on; the others end the run:
-- `panic`, an uncaught exception with its type and message, an access that C++ leaves undefined, a
-- loop that does not end, and a call that the model leaves out.
pub data Result (A : Type 0) : Type 0 where
  ok : A → Result A
  unwound panicked undefined diverged left_out : Result A
  uncaught : Bytes → Bytes → Result A

abbrev pub Action : Type 0 → Type 0 → Type 0
Action G A = Vm G → Result A × Vm G

abbrev from_option : {A : Type 0} → Result A → Option A → Result A
from_option r none = r
from_option r (some a) = ok a

module _ {G A : Type 0} where
  unfoldable pub pure : A → Action G A
  pure a s = (ok a, s)

  -- Any end but `ok`.
  unfoldable pub stop : Result A → Action G A
  stop r s = (r, s)

  unfoldable pub gets : (Vm G → A) → Action G A
  gets f s = (ok (f s), s)

  unfoldable pub or_stop : Option A → Result A → Action G A
  or_stop o r s = (from_option r o, s)

module _ {G : Type 0} where
  unfoldable pub modify : (Vm G → Vm G) → Action G Unit
  modify f s = (ok tt, f s)

module _ {G A B : Type 0} where
  abbrev pub continue : Result A → (A → Action G B) → Action G B
  continue (ok a) f s = f a s
  continue unwound f s = (unwound, s)
  continue panicked f s = (panicked, s)
  continue undefined f s = (undefined, s)
  continue diverged f s = (diverged, s)
  continue left_out f s = (left_out, s)
  continue (uncaught t m) f s = (uncaught t m, s)

  infixl 5 ◌>>=◌ ◌>>◌
  unfoldable pub ◌>>=◌ : Action G A → (A → Action G B) → Action G B
  unfolding pure stop gets or_stop modify
  ◌>>=◌ m f s = let (r, s') = m s in continue r f s'

  abbrev pub ◌>>◌ : Action G A → Action G B → Action G B
  m >> n = m >>= λ _. n
