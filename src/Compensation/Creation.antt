-- ===== src/Compensation/Creation.antt =====
-- `insertWithin` and `create` of compensation/compensation.service.ts.
use asima_backend.Base.{
  ℕ, ◌+◌, ◌≤◌, ◌<◌, ◌≡◌, refl, sym, ◌⊎◌, inl, inr, Bool, true, false, ◌&&◌, [], ◌∷◌, ◌++◌, some,
  Result, ok, err, Error, Field, unprocessable, effective_from, arith, leb, ltb, ◌==◌,
  if◌then◌else◌, Bool-cases, Option-cases, Result-cases, sum_where-update_first,
}
use asima_backend.Time.{Date}
use asima_backend.Compensation.Record.{CompensationRecord}
use asima_backend.Compensation.Money.{PayRate, from_input}
use asima_backend.Compensation.Aggregate.{assert_not_future}
use asima_backend.Compensation.Repository.{is_row, is_active, find_active_for_employee, find_by_id}
use asima_backend.Compensation.Store.{patched, new_compensation, insert, update_row}
use asima_backend.Compensation.Service.{SetPayInput, ending, created_audit, insert_within, create}
use asima_backend.Compensation.Rates.{IsPayroll, rate_on, active_row}
use asima_backend.Compensation.SetPay.{
  IsFigure, set_rows, starts_after_prior, set_rows-IsPayroll, set_rows-rate_on,
}
use asima_backend.Db.{Db, Instant}

abbrev pub new_row : SetPayInput → PayRate → Db → CompensationRecord
new_row input rate db =
    new_compensation input.employee_id rate input.effective_from input.created_by db.next_id

-- The state after a change of pay that succeeds.
unfoldable pub with_pay : SetPayInput → PayRate → Db → Db
unfolding set_rows
with_pay input rate db = record db {
  next_id = db.next_id + 1;
  compensations = set_rows input.created_by (new_row input rate db) db.compensations;
  audits = db.audits ++ created_audit input (new_row input rate db) ∷ [];
}

module _ (divisor : ℕ) (input : SetPayInput) (db : Db)
    (h : IsPayroll db.next_id db.compensations) where
  abbrev rate_of : Result Field PayRate
  rate_of = from_input divisor input.monthly_salary input.hourly_rate

  abbrev is_started : Bool
  is_started = starts_after_prior input.employee_id input.effective_from db.compensations

  -- A change of pay fails by its figures or by its date, and otherwise meets neither the unique
  -- index nor the checks of the table.
  pub insert_within_cases :
      ((f : Field) × (rate_of ≡ err f)
        × (insert_within divisor input db ≡ (err (unprocessable f), db)))
      ⊎ ((rate : PayRate) × (rate_of ≡ ok rate)
          × (is_started ≡ false)
          × (insert_within divisor input db ≡ (err (unprocessable effective_from), db)))
      ⊎ ((rate : PayRate) × (rate_of ≡ ok rate)
          × (is_started ≡ true)
          × (insert_within divisor input db ≡ (ok (new_row input rate db), with_pay input rate db)))
  unfolding insert_within with_pay starts_after_prior set_rows find_active_for_employee insert
      update_row find_by_id
  insert_within_cases = elim (Result-cases rate_of) [
    | inr (f, invalid) ↦ inl (f, invalid, ground arith)
    | inl (rate, valid) ↦
        elim (Option-cases (find_active_for_employee input.employee_id db.compensations)) [
          | inl idle ↦
              let one =
                (set_rows-IsPayroll input.created_by (new_row input rate db) db.next_id
                    db.compensations h refl refl refl (ground arith)).one_active
                  input.employee_id in
              inr (inr (rate, valid, ground arith, ground arith))
          | inr (p, found) ↦
              let (active, by_id, inside) =
                active_row input.employee_id db.next_id db.compensations p h found in
              elim (Bool-cases (ltb p.effective_from input.effective_from)) [
                | inr late ↦ inr (inl (rate, valid, ground arith, ground arith))
                | inl after ↦
                    let one =
                      (set_rows-IsPayroll input.created_by (new_row input rate db) db.next_id
                          db.compensations h refl refl refl (ground arith)).one_active
                        input.employee_id in
                    let before = h.one_active input.employee_id in
                    let moved =
                      sum_where-update_first (is_row p.id)
                        (patched (ending input.effective_from input.created_by))
                        (is_active input.employee_id) (λ _. 1) db.compensations p by_id in
                    inr (inr (rate, valid, ground arith, ground arith))
              ]
        ]
  ]

  pub insert_within-pays :
      (rate : PayRate)
      → is_started ≡ true
      → IsPayroll (db.next_id + 1) (with_pay input rate db).compensations
        × ((f : CompensationRecord → ℕ)
            → IsFigure f
            → (e : ℕ) (d : Date)
            → rate_on f e d (with_pay input rate db).compensations ≡ (
                if e == input.employee_id && leb input.effective_from d
                then some (f (new_row input rate db))
                else rate_on f e d db.compensations))
  unfolding with_pay set_rows
  insert_within-pays rate started =
      let row = new_row input rate db in
      (
        set_rows-IsPayroll input.created_by row db.next_id db.compensations h refl refl refl
            started,
        set_rows-rate_on input.created_by row db.next_id db.compensations h refl refl refl started,
      )

  pub create_cases :
      (i : Instant)
      → ((rate : PayRate) × (rate_of ≡ ok rate)
          × (input.effective_from ≤ i.today)
          × (is_started ≡ true)
          × (create divisor i input db ≡ (ok (new_row input rate db), with_pay input rate db)))
        ⊎ ((f : Field) × (create divisor i input db ≡ (err (unprocessable f), db))
            × ((i.today < input.effective_from) ⊎ (rate_of ≡ err f) ⊎ (is_started ≡ false)))
  unfolding create assert_not_future
  create_cases i = elim (Bool-cases (ltb i.today input.effective_from)) [
    | inl future ↦ inr (effective_from, ground arith, inl (ground arith))
    | inr past ↦ elim insert_within_cases [
      | inl (f, invalid, same) ↦ inr (f, ground arith, inr (inl invalid))
      | inr (inl (rate, valid, late, same)) ↦ inr (effective_from, ground arith, inr (inr late))
      | inr (inr (rate, valid, started, same)) ↦
          inl (rate, valid, ground arith, started, ground arith)
    ]
  ]

  pub create_call :
      (i : Instant) (rate : PayRate)
      → rate_of ≡ ok rate
      → input.effective_from ≤ i.today
      → is_started ≡ true
      → create divisor i input db ≡ (ok (new_row input rate db), with_pay input rate db)
  create_call i rate valid past started = elim (create_cases i) [
    | inr (f, failed, why) ↦ absurd (ground arith)
    | inl (r, valid2, past2, started2, same) ↦
        let agree : r ≡ rate = ground arith in rw (sym agree) same
  ]

  -- Where the table is in order (`IsPayroll`), `create` with valid figures and a
  -- date that is not in the future and after the start of the active row succeeds, keeps the table
  -- so, and adds one audit row. From the new start on the employee is paid by the new row; every
  -- other date, and every other employee, keeps each figure that it had.
  pub create_pays :
      (i : Instant) (rate : PayRate)
      → rate_of ≡ ok rate
      → input.effective_from ≤ i.today
      → is_started ≡ true
      → let done = create divisor i input db in
        let row = new_row input rate db in
        (done.0 ≡ ok row)
        × IsPayroll done.1.next_id done.1.compensations
        × (done.1.audits ≡ db.audits ++ created_audit input row ∷ [])
        × ((f : CompensationRecord → ℕ)
            → IsFigure f
            → (e : ℕ) (d : Date)
            → rate_on f e d done.1.compensations ≡ (
                if e == input.employee_id && leb input.effective_from d
                then some (f row)
                else rate_on f e d db.compensations))
  unfolding with_pay
  create_pays i rate valid past started =
      let pays = insert_within-pays rate started in
      rw (create_call i rate valid past started) (refl, pays.0, refl, pays.1)

  -- Where the table is in order (`IsPayroll`), a `create` that fails changes
  -- nothing and answers 422, never 409 or 500: the date is in the future, a figure is negative, or
  -- the active row of the employee does not start before the date.
  pub create_refused :
      (i : Instant) (e : Error)
      → (create divisor i input db).0 ≡ err e
      → ((create divisor i input db).1 ≡ db)
        × ((f : Field) × (e ≡ unprocessable f))
        × ((i.today < input.effective_from)
            ⊎ ((f : Field) × (rate_of ≡ err f))
            ⊎ (is_started ≡ false))
  create_refused i e failed = elim (create_cases i) [
    | inl (rate, valid, past, started, same) ↦ absurd (ground arith)
    | inr (f, same, inl future) ↦ (ground arith, (f, ground arith), inl future)
    | inr (f, same, inr (inl invalid)) ↦ (ground arith, (f, ground arith), inr (inl (f, invalid)))
    | inr (f, same, inr (inr late)) ↦ (ground arith, (f, ground arith), inr (inr late))
  ]
