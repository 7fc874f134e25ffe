-- ===== src/Compensation/Batch.antt =====
-- The batched read of compensation/compensation.service.ts.
use asima_backend.Base.{
  ℕ, ◌≤◌, ◌≡◌, ap, inl, inr, Bool, List, [], ◌∷◌, none, ok, arith, any, find_last, ◌==◌,
  if◌then◌else◌, Bool-cases,
}
use asima_backend.Time.{Date}
use asima_backend.Compensation.Record.{CompensationRecord}
use asima_backend.Compensation.Repository.{in_effect, latest, find_rate_on_date, find_rates_on_date}
use asima_backend.Compensation.Service.{rates_on_date}
use asima_backend.Compensation.Rates.{rate_count, IsPayroll, no_sum}
use asima_backend.Db.{Db}

abbrev is_asked : List ℕ → ℕ → Bool
is_asked ids e = any (λ id. id == e) ids

batched :
    (ids : List ℕ) (d : Date) (e : ℕ) (rows : List CompensationRecord)
    → rate_count e d rows ≤ 1
    → find_last (λ r. r.employee_id == e) (find_rates_on_date ids d rows)
      ≡ (if is_asked ids e then find_rate_on_date e d rows else none)
unfolding find_rates_on_date find_rate_on_date latest
batched ids d e [] one = ground arith
batched ids d e (r ∷ rows) one =
    let rest = batched ids d e rows in
    let empty = no_sum (in_effect e d) (λ _. 1) rows in
    elim (Bool-cases (r.employee_id == e)) [
      | inl own ↦
          let same : r.employee_id ≡ e = ground arith in
          let asked = ap (is_asked ids) same in
          let on = ap (λ x. in_effect x d r) same in ground (arith, rest, empty)
      | inr other ↦ ground (arith, rest)
    ]

-- Where the table is in order (`IsPayroll`), the batched read gives each
-- employee that it is asked for the row of the single read, and no row to any other.
pub rates_on_date-find_rate_on_date :
    (ids : List ℕ) (d : Date) (e : ℕ) (db : Db)
    → IsPayroll db.next_id db.compensations
    → rates_on_date ids d e db
      ≡ (ok (if any (λ id. id == e) ids then find_rate_on_date e d db.compensations else none), db)
unfolding rates_on_date
rates_on_date-find_rate_on_date ids d e db h =
    ground (arith, batched ids d e db.compensations (h.one_rate e d))
