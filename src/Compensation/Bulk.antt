-- ===== src/Compensation/Bulk.antt =====
-- `createBulk` of compensation/compensation.service.ts.
use asima_backend.Base.{
  ℕ, ◌≡◌, refl, ◌⊎◌, inl, inr, ◌&&◌, List, [], ◌∷◌, map, Option, none, some, ok, err, Field,
  unprocessable, employee_id, effective_from, arith, find_last, leb, ltb, ◌==◌, Bool-cases,
}
use asima_backend.Time.{Date}
use asima_backend.Compensation.Record.{CompensationRecord}
use asima_backend.Compensation.Money.{PayRate, from_input}
use asima_backend.Compensation.Aggregate.{assert_not_future}
use asima_backend.Compensation.Service.{
  SetPayInput, insert_each, assert_none_future, create_bulk, has_duplicate,
}
use asima_backend.Compensation.Rates.{IsPayroll, rate_on}
use asima_backend.Compensation.Creation.{with_pay, new_row, insert_within_cases, insert_within-pays}
use asima_backend.Db.{Db, Instant}

abbrev pub pay_of : CompensationRecord → PayRate
pay_of c = record {
  monthly_salary = c.monthly_salary;
  hourly_rate = c.hourly_rate;
  hourly_rate_is_overridden = c.hourly_rate_is_overridden;
}

abbrev pub input_figure : (PayRate → ℕ) → (divisor : ℕ) → SetPayInput → Option ℕ
input_figure g divisor item = elim (from_input divisor item.monthly_salary item.hourly_rate) [
  | ok rate ↦ some (g rate)
  | err _ ↦ none
]

-- The last item that sets the pay of the employee by the date.
abbrev pub item_for : ℕ → Date → List SetPayInput → Option SetPayInput
item_for e d = find_last (λ item. e == item.employee_id && leb item.effective_from d)

-- The figure that the items set, or the one that there was.
abbrev pub set_by : (PayRate → ℕ) → (divisor : ℕ) → Option SetPayInput → Option ℕ → Option ℕ
set_by g divisor none before = before
set_by g divisor (some item) before = input_figure g divisor item

module _ (divisor : ℕ) (actor : Option ℕ) where
  insert_each_cases :
      (items : List SetPayInput) (db : Db)
      → IsPayroll db.next_id db.compensations
      → ((rows : List CompensationRecord) × (db' : Db) × (insert_each divisor items actor db
            ≡ (ok rows, db'))
          × IsPayroll db'.next_id db'.compensations
          × ((g : PayRate → ℕ) (e : ℕ) (d : Date)
              → rate_on (λ c. g (pay_of c)) e d db'.compensations
                ≡ set_by g divisor
                    (item_for e d items)
                    (rate_on (λ c. g (pay_of c)) e d db.compensations)))
        ⊎ ((f : Field) × (db' : Db) × (insert_each divisor items actor db
              ≡ (err (unprocessable f), db')))
  unfolding insert_each with_pay
  insert_each_cases [] db h = inl ([], db, refl, h, λ g e d. refl)
  insert_each_cases (item ∷ items) db h =
      let input = record item { created_by = actor } in
      elim (insert_within_cases divisor input db h) [
        | inl (f, invalid, same) ↦ inr (f, db, ground arith)
        | inr (inl (rate, valid, late, same)) ↦ inr (effective_from, db, ground arith)
        | inr (inr (rate, valid, started, same)) ↦
            let db1 = with_pay input rate db in
            let pays = insert_within-pays divisor input db h rate started in
            elim (insert_each_cases items db1 pays.0) [
              | inr (f, db2, rest) ↦ inr (f, db2, ground arith)
              | inl (rows, db2, rest, whole, more) ↦ inl (
                new_row input rate db ∷ rows,
                db2,
                ground arith,
                whole,
                λ g e d.
                    let first = pays.1 (λ c. g (pay_of c)) (λ r to by. refl) e d in
                    let next = more g e d in ground arith,
              )
            ]
      ]

none_future_cases :
    (items : List SetPayInput) (today : Date) (db : Db)
    → (assert_none_future items today db ≡ (ok tt, db))
      ⊎ (assert_none_future items today db ≡ (err (unprocessable effective_from), db))
unfolding assert_none_future assert_not_future
none_future_cases [] today db = inl refl
none_future_cases (item ∷ items) today db = elim (none_future_cases items today db) [
  | inl none_future ↦ elim (Bool-cases (ltb today item.effective_from)) [
    | inl future ↦ inr (ground arith)
    | inr past ↦ inl (ground arith)
  ]
  | inr some_future ↦ inr (ground arith)
]

-- Where the table is in order (`IsPayroll`), `createBulk` is all or nothing: it
-- fails with a 422 and changes nothing, or it succeeds for every item, keeps the table so, and each
-- employee's pay on each date is what the last item for the employee that starts by the date says,
-- and without such an item what it was before.
pub create_bulk_whole :
    (divisor : ℕ) (i : Instant) (items : List SetPayInput) (actor : Option ℕ) (db : Db)
    → IsPayroll db.next_id db.compensations
    → ((rows : List CompensationRecord) × (db' : Db) × (create_bulk divisor i items actor db
          ≡ (ok rows, db'))
        × IsPayroll db'.next_id db'.compensations
        × ((g : PayRate → ℕ) (e : ℕ) (d : Date)
            → rate_on (λ c. g (pay_of c)) e d db'.compensations
              ≡ set_by g divisor
                  (item_for e d items)
                  (rate_on (λ c. g (pay_of c)) e d db.compensations)))
      ⊎ ((f : Field) × (create_bulk divisor i items actor db ≡ (err (unprocessable f), db)))
unfolding create_bulk
create_bulk_whole divisor i items actor db h =
    let twice = has_duplicate (map (λ item. item.employee_id) items) in
    elim (Bool-cases twice) [
      | inl repeated ↦ inr (employee_id, ground arith)
      | inr once ↦ elim (none_future_cases items i.today db) [
        | inr some_future ↦ inr (effective_from, ground arith)
        | inl none_future ↦ elim (insert_each_cases divisor actor items db h) [
          | inr (f, db', failed) ↦ inr (f, ground arith)
          | inl (rows, db', done, whole, pays) ↦ inl (rows, db', ground arith, whole, pays)
        ]
      ]
    ]
