-- ===== src/Compensation/History.antt =====
-- Any sequence of the calls that write pay, in compensation/compensation.service.ts.
use asima_backend.Base.{ℕ, List, [], ◌∷◌, Option, none, inl, inr, refl, ap, Result, Error}
use asima_backend.Compensation.Money.{ℤ}
use asima_backend.Compensation.Aggregate.{CorrectionInput}
use asima_backend.Compensation.Service.{SetPayInput, create, create_bulk, update, soft_delete}
use asima_backend.Compensation.Rates.{IsPayroll}
use asima_backend.Compensation.Creation.{create_cases, insert_within-pays, with_pay}
use asima_backend.Compensation.Bulk.{create_bulk_whole}
use asima_backend.Compensation.Correcting.{update_cases, update_corrects}
use asima_backend.Compensation.Removal.{soft_delete_cases, soft_delete_reopens}
use asima_backend.Db.{Db, Instant}

-- A correction carries the salary and the rate, and leaves the start of the row alone.
pub data Call : Type 0 where
  set_pay : Instant → SetPayInput → Call
  set_pay_of_all : Instant → List SetPayInput → Option ℕ → Call
  correct_pay : Instant → ℕ → (monthly hourly : Option ℤ) → Option ℕ → Call
  delete_pay : Instant → ℕ → Option ℕ → Call

abbrev figures_only : Option ℤ → Option ℤ → CorrectionInput
figures_only monthly hourly = record {
  monthly_salary = monthly;
  hourly_rate = hourly;
  effective_from = none;
}

unfoldable pub serve : (divisor : ℕ) → Call → Db → Db
serve divisor (set_pay i input) db = (create divisor i input db).1
serve divisor (set_pay_of_all i items actor) db = (create_bulk divisor i items actor db).1
serve divisor (correct_pay i id monthly hourly by) db =
    (update divisor i id (figures_only monthly hourly) by db).1
serve divisor (delete_pay i id by) db = (soft_delete i id by db).1

-- The calls one after the other; one that fails leaves the state to the next.
unfoldable pub serve_all : (divisor : ℕ) → List Call → Db → Db
unfolding serve
serve_all divisor [] db = db
serve_all divisor (call ∷ calls) db = serve_all divisor calls (serve divisor call db)

abbrev after_call : {A : Type 0} → Result Error A × Db → Db
after_call x = x.1

serve-IsPayroll :
    (divisor : ℕ) (call : Call) (db : Db)
    → IsPayroll db.next_id db.compensations
    → IsPayroll (serve divisor call db).next_id (serve divisor call db).compensations
unfolding serve with_pay
serve-IsPayroll divisor (set_pay i input) db h = elim (create_cases divisor input db h i) [
  | inr (f, failed, why) ↦ rw (ap after_call failed) h
  | inl (rate, valid, past, started, done) ↦
      let pays = insert_within-pays divisor input db h rate started in
      rw (ap after_call done) pays.0
]
serve-IsPayroll divisor (set_pay_of_all i items actor) db h =
    elim (create_bulk_whole divisor i items actor db h) [
      | inl (rows, db', done, whole, pays) ↦ rw (ap after_call done) whole
      | inr (f, failed) ↦ rw (ap after_call failed) h
    ]
serve-IsPayroll divisor (correct_pay i id monthly hourly by) db h =
    elim (update_cases divisor i id (figures_only monthly hourly) by db h refl) [
      | inl missing ↦ rw (ap after_call missing) h
      | inr (inl (f, invalid)) ↦ rw (ap after_call invalid) h
      | inr (inr (c, next, found, valid, done)) ↦
          (update_corrects divisor i id (figures_only monthly hourly) by db h refl c next found
            valid).1
    ]
serve-IsPayroll divisor (delete_pay i id by) db h = elim (soft_delete_cases i by db h id) [
  | inl (missing, same) ↦ rw (ap after_call same) h
  | inr (inl (c, t, found, ended, same)) ↦ rw (ap after_call same) h
  | inr (inr (c, found, open_end, done)) ↦ (soft_delete_reopens i by db h id c found open_end).1
]

-- A table that is in order stays so, whatever pay is set, set in bulk, corrected in its figures or
-- deleted, in any order, and whichever of the calls fail. In order means that each employee has one
-- rate at most on each date and one active row at most, and an active one if any; that no row ends
-- before it starts; and that the ids are distinct and below the next one.
pub serve_all-IsPayroll :
    (divisor : ℕ) (calls : List Call) (db : Db)
    → IsPayroll db.next_id db.compensations
    → IsPayroll (serve_all divisor calls db).next_id (serve_all divisor calls db).compensations
unfolding serve_all
serve_all-IsPayroll divisor [] db h = h
serve_all-IsPayroll divisor (call ∷ calls) db h =
    serve_all-IsPayroll divisor calls (serve divisor call db) (serve-IsPayroll divisor call db h)
