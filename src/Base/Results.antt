-- ===== src/Base/Results.antt =====
-- Exceptions, and use-case methods as functions of the state that they read and write.
use Prim.Native.Nat.{ℕ}
use mathlib.Core.Path.{◌≡◌, refl, ap}
use mathlib.Core.Logic.{◌⊎◌, inl, inr}
use mathlib.Core.Bool.{Bool, true, false}
use mathlib.Core.Option.{Option, none, some}

-- The key under `errors` in the envelope of a 409, 403 or 422.
pub data Field : Type 0 where
  status approver decision_note attachment end_date start_date day_portion approval_chain : Field
  dates balance proposed_time_out target_entry_id work_date time_out employee_id conflict_key :
      Field
  effective_from expected_in expected_out break_minutes break_start monthly_salary hourly_rate :
      Field
  file amount approver_id l1_approver_id to_approver_id employee_ids step id_key permission_ids :
      Field

-- What a method can throw: the HTTP exceptions of utils/helpers/http-errors.ts, a unique violation
-- of the database (23505), and any other exception (`internal`, answered with 500).
pub data Error : Type 0 where
  unprocessable : Field → Error
  conflict : Field → Error
  conflict_plain : Error
  forbidden : Field → Error
  forbidden_plain : Error
  not_found : Error
  too_many_requests : (retry_after_seconds : ℕ) → Error
  unique_violation : Error
  internal : Error

pub data Result (E : Type 0) (A : Type 0) : Type 0 where
  ok : A → Result E A
  err : E → Result E A

-- A call on state `S`: what was written before a throw stays written.
abbrev pub Action : Type 0 → Type 0 → Type 0
Action S A = S → Result Error A × S

module _ {S A : Type 0} where
  abbrev pub pure : A → Action S A
  pure a s = (ok a, s)

  abbrev pub throw : Error → Action S A
  throw e s = (err e, s)

  abbrev pub gets : (S → A) → Action S A
  gets f s = (ok (f s), s)

  -- `orNotFound(value, …)` and other null checks that throw.
  abbrev pub or_throw : Option A → Error → Action S A
  or_throw none e s = (err e, s)
  or_throw (some a) e s = (ok a, s)

  -- A call of a pure domain guard, its error mapped by a `rethrow…` function.
  abbrev pub lift_with : {E : Type 0} → (E → Error) → Result E A → Action S A
  lift_with f (ok a) s = (ok a, s)
  lift_with f (err e) s = (err (f e), s)

  -- `dataSource.transaction(…)`: a throw rolls back what the body wrote.
  abbrev pub transaction : Action S A → Action S A
  transaction m s = let (r, s') = m s in elim r [ ok a ↦ (ok a, s') | err e ↦ (err e, s) ]

  -- `try { … } catch (err) { … }` with a handler that throws again.
  abbrev pub map_error : (Error → Error) → Action S A → Action S A
  map_error f m s = let (r, s') = m s in elim r [ ok a ↦ (ok a, s') | err e ↦ (err (f e), s') ]

infixl 5 ◌>>=◌ ◌>>◌
abbrev pub ◌>>=◌ : {S A B : Type 0} → Action S A → (A → Action S B) → Action S B
◌>>=◌ m f s = let (r, s') = m s in elim r [ ok a ↦ f a s' | err e ↦ (err e, s') ]

abbrev pub ◌>>◌ : {S A B : Type 0} → Action S A → Action S B → Action S B
m >> k = m >>= λ _. k

abbrev pub throw_if : {S : Type 0} → Bool → Error → Action S (Unit {0})
throw_if true e s = (err e, s)
throw_if false e s = (ok tt, s)

abbrev pub modify : {S : Type 0} → (S → S) → Action S (Unit {0})
modify f s = (ok tt, f s)

module _ {S A : Type 0} where
  -- `try { … } catch (err) { await handler; throw err; }`
  abbrev pub on_error : Action S A → Action S (Unit {0}) → Action S A
  on_error m handler s =
      let (r, s') = m s in elim r [ ok a ↦ (ok a, s') | err e ↦ (handler >> throw e) s' ]

pub Result-cases :
    {E A : Type 0} (r : Result E A) → ((a : A) × (r ≡ ok a)) ⊎ ((e : E) × (r ≡ err e))
Result-cases (ok a) = inl (a, refl)
Result-cases (err e) = inr (e, refl)

-- A call after one that returned.
pub bind-ok :
    {S A B : Type 0} (m : Action S A) (f : A → Action S B) (s s' : S) (a : A)
    → m s ≡ (ok a, s')
    → (m >>= f) s ≡ f a s'
bind-ok {S = S} {B = B} m f s s' a h =
    ap (λ x. elim x.0 as (λ _. Result Error B × S) [ ok b ↦ f b x.1 | err e ↦ (err e, x.1) ]) h
