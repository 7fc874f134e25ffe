-- ===== src/Compensation/Aggregate.antt =====
-- compensation/domain/compensation.aggregate.ts. The rows of the model have no negative figure, so
-- that `reconstitute` accepts every row.
use asima_backend.Base.{
  ℕ, Bool, Option, none, some, Result, ok, err, Field, effective_from, ltb, if◌then◌else◌, Change,
  keep, clear, put, is_some, or_else, ◌||◌,
}
use asima_backend.Time.{Date}
use asima_backend.Compensation.Record.{CompensationRecord}
use asima_backend.Compensation.Money.{ℤ, pos, PayRate, from_input}

pub record CorrectionInput : Type 0 where
  pub monthly_salary : Option ℤ
  pub hourly_rate : Option ℤ
  pub effective_from : Option Date

-- `CorrectionPatch`, with the column that the other writes patch.
pub record CompensationPatch : Type 0 where
  pub monthly_salary : Option ℕ
  pub hourly_rate : Option ℕ
  pub hourly_rate_is_overridden : Option Bool
  pub effective_from : Option Date
  pub effective_to : Change Date
  pub updated_by : Change ℕ

-- A nullable value that a patch always carries.
abbrev pub set_to : Option ℕ → Change ℕ
set_to none = clear
set_to (some a) = put a

unfoldable pub assert_not_future : Date → (today : Date) → Result Field (Unit {0})
assert_not_future x today = if ltb today x then err effective_from else ok tt

unfoldable pub assert_patch_not_future : Option Date → (today : Date) → Result Field (Unit {0})
unfolding assert_not_future
assert_patch_not_future none today = ok tt
assert_patch_not_future (some x) today = assert_not_future x today

-- The rate that a patch of the salary or of the rate leads to; none if it patches neither.
unfoldable pub corrected_rate :
    (divisor : ℕ) → CompensationRecord → CorrectionInput → Result Field (Option PayRate)
unfolding from_input
corrected_rate divisor c patch =
    let rate =
      from_input divisor (or_else patch.monthly_salary (pos c.monthly_salary)) patch.hourly_rate in
    if is_some patch.hourly_rate || is_some patch.monthly_salary
    then elim rate [ ok r ↦ ok (some r) | err f ↦ err f ]
    else ok none

-- The salary that the patch carries is the one of the rate that was built from it.
unfoldable pub next_patch : CorrectionInput → Option PayRate → Option ℕ → CompensationPatch
next_patch patch none updated_by = record {
  monthly_salary = none;
  hourly_rate = none;
  hourly_rate_is_overridden = none;
  effective_from = patch.effective_from;
  effective_to = keep;
  updated_by = set_to updated_by;
}
next_patch patch (some rate) updated_by = record {
  monthly_salary = if is_some patch.monthly_salary then some rate.monthly_salary else none;
  hourly_rate = some rate.hourly_rate;
  hourly_rate_is_overridden = some rate.hourly_rate_is_overridden;
  effective_from = patch.effective_from;
  effective_to = keep;
  updated_by = set_to updated_by;
}

unfoldable pub correct :
    (divisor : ℕ)
    → CompensationRecord
    → CorrectionInput
    → (today : Date) → Option ℕ
    → Result Field CompensationPatch
unfolding assert_patch_not_future corrected_rate next_patch assert_not_future from_input
correct divisor c patch today updated_by =
    elim (assert_patch_not_future patch.effective_from today) [
      | err f ↦ err f
      | ok _ ↦ elim (corrected_rate divisor c patch) [
        | err f ↦ err f
        | ok rate ↦ ok (next_patch patch rate updated_by)
      ]
    ]
