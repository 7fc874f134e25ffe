-- ===== src/Tests/Payroll.antt =====
-- Pay: runs of the service of compensation/, and the theorems at concrete calls.
use asima_backend.Base.{
  ℕ, ◌≡◌, refl, ◌⊎◌, true, false, List, [], ◌∷◌, none, some, keep, put, ok, err, Field,
  unprocessable, arith,
}
use asima_backend.Compensation.{
  CompensationRecord, pos, PayRate, from_input, CorrectionInput, CompensationPatch,
  derive_hourly_rate, new_pay_rate, find_by_id, find_rate_on_date, find_active_for_employee, latest,
}
use asima_backend.Compensation.Service.{
  SetPayInput, create, create_bulk, soft_delete, rates_on_date,
}
use asima_backend.Compensation.Rates.{IsPayroll, rate_on}
use asima_backend.Compensation.SetPay.{starts_after_prior}
use asima_backend.Compensation.Creation.{create_pays}
use asima_backend.Compensation.Bulk.{create_bulk_whole, pay_of, set_by, item_for}
use asima_backend.Compensation.Batch.{rates_on_date-find_rate_on_date}
use asima_backend.Compensation.Removal.{soft_delete_reopens}
use asima_backend.Compensation.Undo.{create_undone}
use asima_backend.Compensation.History.{
  Call, set_pay, set_pay_of_all, correct_pay, delete_pay, serve_all, serve_all-IsPayroll,
}
use asima_backend.Db.{Db}
use asima_backend.Tests.Data.{morning, office}

-- Twenty thousand a month, and thirty thousand since.
abbrev first_pay : CompensationRecord
first_pay = record {
  id = 50;
  employee_id = 7;
  monthly_salary = 2000000;
  hourly_rate = 958451;
  hourly_rate_is_overridden = false;
  effective_from = 690000;
  effective_to = some 694999;
  created_by = some 9;
  updated_by = some 9;
  deleted_by = none;
  deleted_at = none;
}

abbrev pay : CompensationRecord
pay = record first_pay {
  id = 51;
  monthly_salary = 3000000;
  hourly_rate = 1437676;
  effective_from = 695000;
  effective_to = none;
}

abbrev paid_office : Db
paid_office = record office { next_id = 100; compensations = first_pay ∷ pay ∷ [] }

paid_office-IsPayroll : IsPayroll paid_office.next_id paid_office.compensations
paid_office-IsPayroll = record {
  one_rate = λ e d. ground arith;
  one_active = λ e. ground arith;
  active_if_any = λ e none_now. ground arith;
  forwards = (refl, (refl, tt));
  distinct = (refl, (refl, tt));
  numbered = (omega arith, (omega arith, tt));
}

abbrev raise : SetPayInput
raise = record {
  employee_id = 7;
  monthly_salary = pos 4000000;
  hourly_rate = none;
  effective_from = 700002;
  created_by = some 9;
}

abbrev raised : PayRate
raised = record {
  monthly_salary = 4000000;
  hourly_rate = 1916902;
  hourly_rate_is_overridden = false;
}

-- 40,000.00 a month at 208.67 hours is 191.6902 an hour.
raise_rate : from_input 20867 raise.monthly_salary raise.hourly_rate ≡ ok raised
unfolding from_input new_pay_rate derive_hourly_rate
raise_rate = refl

raise_starts : starts_after_prior 7 700002 paid_office.compensations ≡ true
unfolding starts_after_prior find_active_for_employee
raise_starts = refl

create_pays_example :
    rate_on
      (λ r. r.monthly_salary)
      7
      700002
      (create 20867 morning raise paid_office).1.compensations
    ≡ some 4000000
create_pays_example =
    (create_pays 20867 raise paid_office paid_office-IsPayroll morning raised raise_rate
        (omega arith) raise_starts).3
      (λ r. r.monthly_salary) (λ r to by. refl) 7 700002

create_undone_example :
    rate_on
      (λ r. r.monthly_salary)
      7
      700002
      (soft_delete morning 100 (some 9) (create 20867 morning raise paid_office).1).1.compensations
    ≡ rate_on (λ r. r.monthly_salary) 7 700002 paid_office.compensations
create_undone_example =
    (create_undone 20867 raise paid_office paid_office-IsPayroll morning morning (some 9) raised
        raise_rate (omega arith) raise_starts).2
      (λ r. r.monthly_salary) (λ r to by. refl) 7 700002

found_pay : find_by_id 51 paid_office.compensations ≡ some pay
unfolding find_by_id
found_pay = refl

soft_delete_reopens_example : (soft_delete morning 51 (some 9) paid_office).0 ≡ ok tt
soft_delete_reopens_example =
    (soft_delete_reopens morning (some 9) paid_office paid_office-IsPayroll 51 pay found_pay refl).0

create_bulk_whole_example :
    ((rows : List CompensationRecord) × (db' : Db) × (create_bulk 20867 morning
          (raise ∷ [])
          (some 9)
          paid_office
        ≡ (ok rows, db'))
      × IsPayroll db'.next_id db'.compensations
      × ((g : PayRate → ℕ) (e d : ℕ)
          → rate_on (λ c. g (pay_of c)) e d db'.compensations
            ≡ set_by g 20867
                (item_for e d (raise ∷ []))
                (rate_on (λ c. g (pay_of c)) e d paid_office.compensations)))
    ⊎ ((f : Field) × (create_bulk 20867 morning (raise ∷ []) (some 9) paid_office
          ≡ (err (unprocessable f), paid_office)))
create_bulk_whole_example =
    create_bulk_whole 20867 morning (raise ∷ []) (some 9) paid_office paid_office-IsPayroll

-- The salary alone is corrected, and the rate is derived again.
abbrev to_four : CorrectionInput
to_four = record { monthly_salary = some (pos 4000000); hourly_rate = none; effective_from = none }

abbrev corrected : CompensationPatch
corrected = record {
  monthly_salary = some 4000000;
  hourly_rate = some 1916902;
  hourly_rate_is_overridden = some false;
  effective_from = none;
  effective_to = keep;
  updated_by = put 9;
}

rates_on_date-find_rate_on_date_example :
    rates_on_date (7 ∷ 8 ∷ []) 692000 7 paid_office
    ≡ (ok (find_rate_on_date 7 692000 paid_office.compensations), paid_office)
rates_on_date-find_rate_on_date_example =
    rates_on_date-find_rate_on_date (7 ∷ 8 ∷ []) 692000 7 paid_office paid_office-IsPayroll

abbrev calls : List Call
calls =
    set_pay morning raise
    ∷ correct_pay morning 100 (some (pos 4100000)) none (some 9)
    ∷ delete_pay morning 51 (some 9)
    ∷ set_pay_of_all morning (raise ∷ []) (some 9)
    ∷ []

serve_all-IsPayroll_example :
    IsPayroll
      (serve_all 20867 calls paid_office).next_id
      (serve_all 20867 calls paid_office).compensations
serve_all-IsPayroll_example = serve_all-IsPayroll 20867 calls paid_office paid_office-IsPayroll

-- On a date of its own the first row pays.
first_pays : find_rate_on_date 7 692000 paid_office.compensations ≡ some first_pay
unfolding find_rate_on_date latest
first_pays = refl
