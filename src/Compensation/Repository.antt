-- ===== src/Compensation/Repository.antt =====
-- The reads of compensation/persistence/repositories/compensation.repository.ts and
-- compensation-audit.repository.ts. The query builder passes over soft-deleted rows.
use asima_backend.Base.{
  ℕ, ◌==◌, ◌&&◌, is_none, List, [], ◌∷◌, ◌++◌, Option, none, some, Bool, true, filter, find, any,
  ltb, leb, if◌then◌else◌,
}
use asima_backend.Time.{Date}
use asima_backend.Compensation.Record.{CompensationRecord, CompensationAuditRecord}

abbrev pub is_row : ℕ → CompensationRecord → Bool
is_row id r = r.id == id && is_none r.deleted_at

unfoldable pub find_by_id : ℕ → List CompensationRecord → Option CompensationRecord
find_by_id id = find (is_row id)

abbrev pub is_live : ℕ → CompensationRecord → Bool
is_live e r = r.employee_id == e && is_none r.deleted_at

abbrev pub is_active : ℕ → CompensationRecord → Bool
is_active e r = is_live e r && is_none r.effective_to

unfoldable pub find_active_for_employee : ℕ → List CompensationRecord → Option CompensationRecord
find_active_for_employee e = find (is_active e)

-- `effective_to IS NULL OR effective_to >= :date`
abbrev pub reaches : Option Date → Date → Bool
reaches none d = true
reaches (some t) d = leb d t

abbrev pub in_effect : ℕ → Date → CompensationRecord → Bool
in_effect e d r = is_live e r && (leb r.effective_from d && reaches r.effective_to d)

abbrev pub later : CompensationRecord → Option CompensationRecord → Option CompensationRecord
later r none = some r
later r (some s) = if ltb r.effective_from s.effective_from then some s else some r

-- `orderBy('c.effective_from', 'DESC').getOne()`
unfoldable pub latest :
    (CompensationRecord → Bool) → List CompensationRecord → Option CompensationRecord
latest p [] = none
latest p (r ∷ rows) = let rest = latest p rows in if p r then later r rest else rest

unfoldable pub find_rate_on_date : ℕ → Date → List CompensationRecord → Option CompensationRecord
unfolding latest
find_rate_on_date e d = latest (in_effect e d)

abbrev pub starts_before : ℕ → Date → CompensationRecord → Bool
starts_before e x r = is_live e r && ltb r.effective_from x

unfoldable pub find_previous_for_employee :
    ℕ → Date → List CompensationRecord → Option CompensationRecord
unfolding latest
find_previous_for_employee e before = latest (starts_before e before)

unfoldable pub find_rates_on_date :
    List ℕ → Date → List CompensationRecord → List CompensationRecord
find_rates_on_date ids d =
    filter (λ r. any (λ e. e == r.employee_id) ids && in_effect r.employee_id d r)

abbrev insert_desc : CompensationRecord → List CompensationRecord → List CompensationRecord
insert_desc r [] = r ∷ []
insert_desc r (s ∷ rows) =
    if ltb r.effective_from s.effective_from then s ∷ insert_desc r rows else r ∷ s ∷ rows

unfoldable pub find_history_for_employee : ℕ → List CompensationRecord → List CompensationRecord
find_history_for_employee e [] = []
find_history_for_employee e (r ∷ rows) =
    let rest = find_history_for_employee e rows in if is_live e r then insert_desc r rest else rest

-- Newest first: the rows of the table are in the order in which they were written.
unfoldable pub find_by_compensation_id :
    ℕ → List CompensationAuditRecord → List CompensationAuditRecord
find_by_compensation_id id [] = []
find_by_compensation_id id (a ∷ audits) =
    let newer = find_by_compensation_id id audits in
    if a.compensation_id == id then newer ++ a ∷ [] else newer
