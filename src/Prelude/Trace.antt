-- ===== src/Prelude/Trace.antt =====
-- Code that calls the kernel or the C library, as the list of the calls that it makes, in order,
-- with its result. What a call returns is an argument of the code's model.
use mathlib.Core.List.{List, [], ◌∷◌, ◌++◌}

-- `fault` is a run that ends in undefined behaviour, such as a read through a null pointer.
pub data Outcome (A : Type 0) : Type 0 where
  done : A → Outcome A
  fault : Outcome A

pub record Run (E A : Type 0) : Type 0 where
  pub calls : List E
  pub outcome : Outcome A

module _ {E : Type 0} where
  abbrev pub run : {A : Type 0} → List E → Outcome A → Run E A
  run es o = record { calls = es; outcome = o }

  abbrev pub after : {A : Type 0} → List E → Run E A → Run E A
  after es r = run (es ++ r.calls) r.outcome

  abbrev pub and_then : {A B : Type 0} → List E → Outcome A → (A → Run E B) → Run E B
  and_then es (done a) k = after es (k a)
  and_then es fault k = run es fault

  infixl 5 ◌>>=◌ ◌>>◌
  abbrev pub ◌>>=◌ : {A B : Type 0} → Run E A → (A → Run E B) → Run E B
  r >>= k = and_then r.calls r.outcome k

  abbrev pub ◌>>◌ : {B : Type 0} → Run E (Unit {0}) → Run E B → Run E B
  r >> s = r >>= λ _. s

  abbrev pub pure : {A : Type 0} → A → Run E A
  pure a = run [] (done a)

  -- A call whose result is not used.
  abbrev pub call : E → Run E (Unit {0})
  call e = run (e ∷ []) (done tt)

  -- A call that returns `a`.
  abbrev pub ask : {A : Type 0} → E → A → Run E A
  ask e a = run (e ∷ []) (done a)

  abbrev pub oops : {A : Type 0} → Run E A
  oops = run [] fault
