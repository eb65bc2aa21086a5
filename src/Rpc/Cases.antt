-- ===== src/Rpc/Cases.antt =====
-- Splits on how a call or a program ended, which keep the equation.
use mathlib.Core.Path.{◌≡◌, refl}
use mathlib.Core.Logic.{◌⊎◌, inl, inr}
use native.Mathlib.Omega.{arith}
use rlvm.Rpc.Actions.{Result, ok, err, Outcome, reply, fail, panic, Program, ◌>>=◌}

module _ {S E A : Type 0} where
  pub Result-cases :
      (x : Result E A × S)
      → ((a : A) × (t : S) × (x ≡ (ok a, t))) ⊎ ((e : E) × (t : S) × (x ≡ (err e, t)))
  Result-cases (ok a, t) = inl (a, t, refl)
  Result-cases (err e, t) = inr (e, t, refl)

  pub Outcome-cases :
      (x : Outcome E A × S)
      → ((a : A) × (t : S) × (x ≡ (reply a, t)))
        ⊎ ((e : E) × (t : S) × (x ≡ (fail e, t)))
        ⊎ ((t : S) × (x ≡ (panic, t)))
  Outcome-cases (reply a, t) = inl (a, t, refl)
  Outcome-cases (fail e, t) = inr (inl (e, t, refl))
  Outcome-cases (panic, t) = inr (inr (t, refl))

-- Inversion of a bind that ended in a reply.
pub >>=-eq-reply :
    {S E A B : Type 0} (m : Program S E A) (f : A → Program S E B) (s : S) {b : B} {t : S}
    → (m >>= f) s ≡ (reply b, t)
    → (a : A) × (u : S) × (m s ≡ (reply a, u)) × (f a u ≡ (reply b, t))
>>=-eq-reply m f s {b} {t} h = elim (Outcome-cases (m s)) [
  | inl (a, u, e) ↦ (a, u, e, ground arith)
  | inr (inl (x, u, e)) ↦ ground arith
  | inr (inr (u, e)) ↦ ground arith
]

-- The same for a result that comes with no state.
pub pure_Result-cases :
    {E A : Type 0} (x : Result E A) → ((a : A) × (x ≡ ok a)) ⊎ ((e : E) × (x ≡ err e))
pure_Result-cases (ok a) = inl (a, refl)
pure_Result-cases (err e) = inr (e, refl)
