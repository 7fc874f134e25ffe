-- ===== src/Compensation/Correcting.antt =====
-- `update` of compensation/compensation.service.ts, where the start of the row is not patched.
use asima_backend.Base.{
  sum_where-only, ℕ, ◌+◌, ◌<◌, ◌≡◌, refl, ◌⊎◌, inl, inr, Bool, false, List, [], ◌∷◌, ◌++◌, Option,
  none, some, ok, err, Field, unprocessable, not_found, keep, arith, All-Member, All-update_first,
  Member, HasDistinct-update_first, find, find-own_key, find-Member, find_sound, sum_where,
  sum_where-update_first, update_first, is_none, if◌then◌else◌, Option-cases, Result-cases,
}
use asima_backend.Time.{Date}
use asima_backend.Compensation.Record.{CompensationRecord}
use asima_backend.Compensation.Aggregate.{
  CorrectionInput, CompensationPatch, correct, next_patch, corrected_rate, assert_patch_not_future,
}
use asima_backend.Compensation.Repository.{is_row, is_live, is_active, in_effect, find_by_id}
use asima_backend.Compensation.Store.{is_backwards, patched, update_row}
use asima_backend.Compensation.Service.{update, updated_audit}
use asima_backend.Compensation.Rates.{IsPayroll, rate_on, rate_on-counted}
use asima_backend.Db.{Db, Instant}

-- The patch leaves the dates of the row as they are.
keeps_dates :
    (divisor : ℕ) (c : CompensationRecord) (patch : CorrectionInput) (today : Date) (by : Option ℕ)
    (next : CompensationPatch)
    → patch.effective_from ≡ none
    → correct divisor c patch today by ≡ ok next
    → (next.effective_from ≡ none) × (next.effective_to ≡ keep)
unfolding correct next_patch assert_patch_not_future
keeps_dates divisor c patch today by next same_start corrected =
    elim (Result-cases (corrected_rate divisor c patch)) [
      | inr (f, invalid) ↦ absurd (ground arith)
      | inl (rate, valid) ↦ elim (Option-cases rate) [
        | inl unpatched ↦ ground arith
        | inr (r, new_rate) ↦ ground arith
      ]
    ]

module _ (next : CompensationPatch) (same_start : next.effective_from ≡ none)
    (same_end : next.effective_to ≡ keep) (n : ℕ) (rows : List CompensationRecord)
    (h : IsPayroll n rows) (c : CompensationRecord) (by_id : find (is_row c.id) rows ≡ some c)
    (inside : Member c rows) where
  abbrev corrected_rows : List CompensationRecord
  corrected_rows = update_first (is_row c.id) (patched next) rows

  sums :
      (q : CompensationRecord → Bool) (g : CompensationRecord → ℕ)
      → sum_where q g corrected_rows + (if q c then g c else 0)
        ≡ sum_where q g rows + (if q (patched next c) then g (patched next c) else 0)
  sums q g = sum_where-update_first (is_row c.id) (patched next) q g rows c by_id

  corrected_rows-IsPayroll : IsPayroll n corrected_rows
  corrected_rows-IsPayroll = record {
    one_rate = λ e d.
        let one = h.one_rate e d in let moved = sums (in_effect e d) (λ _. 1) in ground arith;
    one_active =
        λ e. let one = h.one_active e in let moved = sums (is_active e) (λ _. 1) in ground arith;
    active_if_any = λ e none_now.
        let idle = h.active_if_any e in
        let actives = sums (is_active e) (λ _. 1) in
        let lives = sums (is_live e) (λ _. 1) in ground arith;
    forwards =
        let forward = All-Member (λ r. is_backwards r ≡ false) rows c h.forwards inside in
        All-update_first (λ r. is_backwards r ≡ false) (is_row c.id) (patched next) rows c by_id
          h.forwards (ground arith);
    distinct =
        HasDistinct-update_first (λ r. r.id) (is_row c.id) (patched next) rows (λ r. refl)
          h.distinct;
    numbered =
        All-update_first (λ r. r.id < n) (is_row c.id) (patched next) rows c by_id h.numbered
          (All-Member (λ r. r.id < n) rows c h.numbered inside);
  }

  corrected_rows-rate_on :
      (f : CompensationRecord → ℕ) (e : ℕ) (d : Date)
      → rate_on f e d corrected_rows
        ≡ (if in_effect e d c then some (f (patched next c)) else rate_on f e d rows)
  corrected_rows-rate_on f e d =
      let counts = sums (in_effect e d) (λ _. 1) in
      let figures = sums (in_effect e d) f in
      let only = sum_where-only (in_effect e d) f rows c (h.one_rate e d) inside in
      let before = rate_on-counted f e d n rows h in
      let later = rate_on-counted f e d n corrected_rows corrected_rows-IsPayroll in
      rw later (rw before (ground arith))

module _ (divisor : ℕ) (i : Instant) (id : ℕ) (patch : CorrectionInput) (by : Option ℕ) (db : Db)
    (h : IsPayroll db.next_id db.compensations) (same_start : patch.effective_from ≡ none) where
  -- The state after a correction that succeeds.
  abbrev pub with_correction : CompensationPatch → CompensationRecord → Db
  with_correction next c = record db {
    compensations = update_first (is_row c.id) (patched next) db.compensations;
    audits = db.audits ++ updated_audit c (patched next c) by ∷ [];
  }

  found_row :
      (c : CompensationRecord)
      → find_by_id id db.compensations ≡ some c
      → (c.id ≡ id) × (find (is_row c.id) db.compensations ≡ some c) × Member c db.compensations
  unfolding find_by_id
  found_row c found =
      let sound = find_sound (is_row id) db.compensations c found in
      let inside = find-Member (is_row id) db.compensations c found in
      (
        ground arith,
        find-own_key (λ r. r.id) (λ r. is_none r.deleted_at) db.compensations c h.distinct inside
            (ground arith),
        inside,
      )

  corrects :
      (c : CompensationRecord) (next : CompensationPatch)
      → find_by_id id db.compensations ≡ some c
      → correct divisor c patch i.today by ≡ ok next
      → update divisor i id patch by db ≡ (ok (patched next c), with_correction next c)
  unfolding update update_row find_by_id
  corrects c next found corrected =
      let (same_id, by_id, inside) = found_row c found in
      let (starts, ends) = keeps_dates divisor c patch i.today by next same_start corrected in
      let whole =
        corrected_rows-IsPayroll next starts ends db.next_id db.compensations h c by_id inside in
      let one = whole.one_active c.employee_id in
      let forward = All-Member (λ r. is_backwards r ≡ false) db.compensations c h.forwards inside in
      ground arith

  pub update_cases :
      (update divisor i id patch by db ≡ (err not_found, db))
      ⊎ ((f : Field) × (update divisor i id patch by db ≡ (err (unprocessable f), db)))
      ⊎ ((c : CompensationRecord) × (next : CompensationPatch) × (find_by_id id db.compensations
            ≡ some c)
          × (correct divisor c patch i.today by ≡ ok next)
          × (update divisor i id patch by db ≡ (ok (patched next c), with_correction next c)))
  unfolding update
  update_cases = elim (Option-cases (find_by_id id db.compensations)) [
    | inl missing ↦ inl (ground arith)
    | inr (c, found) ↦ elim (Result-cases (correct divisor c patch i.today by)) [
      | inr (f, invalid) ↦ inr (inl (f, ground arith))
      | inl (next, valid) ↦ inr (inr (c, next, found, valid, corrects c next found valid))
    ]
  ]

  pub update_corrects :
      (c : CompensationRecord) (next : CompensationPatch)
      → find_by_id id db.compensations ≡ some c
      → correct divisor c patch i.today by ≡ ok next
      → let done = update divisor i id patch by db in
        (done.0 ≡ ok (patched next c))
        × IsPayroll done.1.next_id done.1.compensations
        × (done.1.audits ≡ db.audits ++ updated_audit c (patched next c) by ∷ [])
        × ((f : CompensationRecord → ℕ) (e : ℕ) (d : Date)
            → rate_on f e d done.1.compensations ≡ (
                if in_effect e d c
                then some (f (patched next c))
                else rate_on f e d db.compensations))
  update_corrects c next found corrected =
      let (same_id, by_id, inside) = found_row c found in
      let (starts, ends) = keeps_dates divisor c patch i.today by next same_start corrected in
      rw (corrects c next found corrected) (
        refl,
        corrected_rows-IsPayroll next starts ends db.next_id db.compensations h c by_id inside,
        refl,
        corrected_rows-rate_on next starts ends db.next_id db.compensations h c by_id inside,
      )
