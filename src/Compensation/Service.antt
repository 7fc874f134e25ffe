-- ===== src/Compensation/Service.antt =====
-- compensation/compensation.service.ts. `divisor` is the configured number of hours of a month.
use asima_backend.Base.{
  ℕ, ◌==◌, Bool, false, List, [], ◌∷◌, map, Option, none, some, Error, unprocessable, conflict,
  not_found, unique_violation, employee_id, effective_from, id_key, clear, put, ◌>>=◌, ◌>>◌, pure,
  gets, or_throw, throw_if, lift_with, transaction, map_error, any, find_last, leb, is_some, ◌||◌,
}
use asima_backend.Time.{Date, day_before}
use asima_backend.Compensation.Record.{
  CompensationRecord, CompensationAuditRecord, created, updated, deleted,
}
use asima_backend.Compensation.Money.{ℤ, from_input}
use asima_backend.Compensation.Aggregate.{
  CorrectionInput, CompensationPatch, set_to, assert_not_future, correct,
}
use asima_backend.Compensation.Repository.{
  find_by_id, find_active_for_employee, find_rates_on_date, find_previous_for_employee,
  find_by_compensation_id,
}
use asima_backend.Compensation.Store.{insert, update_row, delete_row, record_audit}
use asima_backend.Db.{Instant, Use}

pub record SetPayInput : Type 0 where
  pub employee_id : ℕ
  pub monthly_salary : ℤ
  pub hourly_rate : Option ℤ
  pub effective_from : Date
  pub created_by : Option ℕ

-- A patch of `effective_to` and `updated_by` alone.
abbrev pub ending : Date → Option ℕ → CompensationPatch
ending x actor = record {
  monthly_salary = none;
  hourly_rate = none;
  hourly_rate_is_overridden = none;
  effective_from = none;
  effective_to = put (day_before x);
  updated_by = set_to actor;
}

abbrev pub reopening : Option ℕ → CompensationPatch
reopening actor = record {
  monthly_salary = none;
  hourly_rate = none;
  hourly_rate_is_overridden = none;
  effective_from = none;
  effective_to = clear;
  updated_by = set_to actor;
}

end_prior : SetPayInput → Option CompensationRecord → Use (Unit {0})
unfolding update_row
end_prior input none = pure tt
end_prior input (some prior) = do
  throw_if (leb input.effective_from prior.effective_from) (unprocessable effective_from)
  update_row prior.id (ending input.effective_from input.created_by)
  pure tt

abbrev pub created_audit : SetPayInput → CompensationRecord → CompensationAuditRecord
created_audit input c = record {
  compensation_id = c.id;
  employee_id = c.employee_id;
  action = created;
  before_monthly_salary = none;
  after_monthly_salary = some c.monthly_salary;
  before_hourly_rate = none;
  after_hourly_rate = some c.hourly_rate;
  before_effective_from = none;
  after_effective_from = some c.effective_from;
  actor_id = input.created_by;
}

unfoldable pub insert_within : (divisor : ℕ) → SetPayInput → Use CompensationRecord
unfolding end_prior insert update_row from_input find_active_for_employee
insert_within divisor input = do
  rate ← lift_with unprocessable (from_input divisor input.monthly_salary input.hourly_rate)
  prior ← gets (λ db. find_active_for_employee input.employee_id db.compensations)
  end_prior input prior
  row ← insert input.employee_id rate input.effective_from input.created_by
  record_audit (created_audit input row)
  pure row

abbrev unique_to_conflict : Error → Error
unique_to_conflict unique_violation = conflict employee_id
unique_to_conflict e = e

unfoldable pub create : (divisor : ℕ) → Instant → SetPayInput → Use CompensationRecord
unfolding insert_within assert_not_future
create divisor i input = do
  lift_with unprocessable (assert_not_future input.effective_from i.today)
  map_error unique_to_conflict (transaction (insert_within divisor input))

-- `ids.find((id, i) => ids.indexOf(id) !== i)`: some id occurs twice.
abbrev pub has_duplicate : List ℕ → Bool
has_duplicate [] = false
has_duplicate (id ∷ ids) = any (λ x. x == id) ids || has_duplicate ids

unfoldable pub assert_none_future : List SetPayInput → (today : Date) → Use (Unit {0})
unfolding assert_not_future
assert_none_future [] today = pure tt
assert_none_future (item ∷ items) today = do
  lift_with unprocessable (assert_not_future item.effective_from today)
  assert_none_future items today

unfoldable pub insert_each :
    (divisor : ℕ) → List SetPayInput → Option ℕ → Use (List CompensationRecord)
unfolding insert_within
insert_each divisor [] actor = pure []
insert_each divisor (item ∷ items) actor = do
  row ← insert_within divisor (record item { created_by = actor })
  rows ← insert_each divisor items actor
  pure (row ∷ rows)

unfoldable pub create_bulk :
    (divisor : ℕ) → Instant → List SetPayInput → Option ℕ → Use (List CompensationRecord)
unfolding assert_none_future insert_each
create_bulk divisor i items actor = do
  throw_if (has_duplicate (map (λ item. item.employee_id) items)) (unprocessable employee_id)
  assert_none_future items i.today
  map_error unique_to_conflict (transaction (insert_each divisor items actor))

abbrev load : ℕ → Use CompensationRecord
unfolding find_by_id
load id = do found ← gets (λ db. find_by_id id db.compensations); or_throw found not_found

abbrev pub updated_audit :
    CompensationRecord → CompensationRecord → Option ℕ → CompensationAuditRecord
updated_audit before after actor = record {
  compensation_id = before.id;
  employee_id = before.employee_id;
  action = updated;
  before_monthly_salary = some before.monthly_salary;
  after_monthly_salary = some after.monthly_salary;
  before_hourly_rate = some before.hourly_rate;
  after_hourly_rate = some after.hourly_rate;
  before_effective_from = some before.effective_from;
  after_effective_from = some after.effective_from;
  actor_id = actor;
}

unfoldable pub update :
    (divisor : ℕ) → Instant → ℕ → CorrectionInput → Option ℕ → Use CompensationRecord
unfolding find_by_id correct update_row
update divisor i id patch updated_by = do
  existing ← load id
  next ← lift_with unprocessable (correct divisor existing patch i.today updated_by)
  transaction
      (do row ← update_row id next; record_audit (updated_audit existing row updated_by); pure row)

abbrev pub deleted_audit : CompensationRecord → Option ℕ → CompensationAuditRecord
deleted_audit c actor = record {
  compensation_id = c.id;
  employee_id = c.employee_id;
  action = deleted;
  before_monthly_salary = some c.monthly_salary;
  after_monthly_salary = none;
  before_hourly_rate = some c.hourly_rate;
  after_hourly_rate = none;
  before_effective_from = some c.effective_from;
  after_effective_from = none;
  actor_id = actor;
}

reopen : Option CompensationRecord → Option ℕ → Use (Unit {0})
unfolding update_row
reopen none deleted_by = pure tt
reopen (some prior) deleted_by = update_row prior.id (reopening deleted_by) >> pure tt

unfoldable pub soft_delete : Instant → ℕ → Option ℕ → Use (Unit {0})
unfolding find_by_id delete_row reopen update_row find_previous_for_employee
soft_delete i id deleted_by = do
  existing ← load id
  throw_if (is_some existing.effective_to) (conflict id_key)
  transaction (do
    delete_row i.now id deleted_by
    prior ← gets (λ db.
        find_previous_for_employee existing.employee_id existing.effective_from db.compensations)
    reopen prior deleted_by
    record_audit (deleted_audit existing deleted_by))

-- The keys of the `Map` are the employees of the rows.
unfoldable pub rates_on_date : List ℕ → Date → ℕ → Use (Option CompensationRecord)
unfolding find_rates_on_date
rates_on_date ids d e =
    gets (λ db. find_last (λ r. r.employee_id == e) (find_rates_on_date ids d db.compensations))

unfoldable pub find_audit_trail : ℕ → Use (List CompensationAuditRecord)
unfolding find_by_id find_by_compensation_id
find_audit_trail id = do load id; gets (λ db. find_by_compensation_id id db.audits)
