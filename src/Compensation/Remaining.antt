-- ===== src/Compensation/Remaining.antt =====
-- The rows of an employee that a deletion in compensation/compensation.service.ts leaves.
use asima_backend.Base.{
  ℕ, ◌+◌, ◌≤◌, ◌<◌, ◌≡◌, refl, ◌⊎◌, inl, inr, Bool, true, false, List, Option, none, some, arith,
  All, All-of_Member, All-Member, All-update_first, Member, HasDistinct, HasDistinct-update_first,
  find, find-own_key, sum_where, sum_where-Member, sum_where_mono, sum_where-update_first,
  update_first, ltb, is_none, if◌then◌else◌, Bool-cases, Option-cases,
}
use asima_backend.Time.{Date}
use asima_backend.Compensation.Record.{CompensationRecord}
use asima_backend.Compensation.Repository.{
  is_row, is_live, is_active, in_effect, starts_before, find_previous_for_employee,
}
use asima_backend.Compensation.Store.{is_backwards, patched, removed}
use asima_backend.Compensation.Service.{reopening}
use asima_backend.Compensation.Rates.{
  rate_count, IsPayroll, latest-Member, latest_holds, latest-none, latest_starts_last,
}

-- The rows without the row of an id.
abbrev pub without : ℕ → Option ℕ → ℕ → List CompensationRecord → List CompensationRecord
without now by id = update_first (is_row id) (removed now by)

module _ (now : ℕ) (by : Option ℕ) (n : ℕ) (rows : List CompensationRecord) (h : IsPayroll n rows)
    (c : CompensationRecord) (by_id : find (is_row c.id) rows ≡ some c)
    (active : is_active c.employee_id c ≡ true) (inside : Member c rows) where
  abbrev pub rest : List CompensationRecord
  rest = without now by c.id rows

  abbrev pub gone : CompensationRecord → CompensationRecord
  gone = removed now by

  pub rest_sums :
      (q : CompensationRecord → Bool) (g : CompensationRecord → ℕ)
      → q (gone c) ≡ false
      → sum_where q g rest + (if q c then g c else 0) ≡ sum_where q g rows
  rest_sums q g off =
      let moved = sum_where-update_first (is_row c.id) gone q g rows c by_id in ground arith

  rest_forwards : All (λ r. is_backwards r ≡ false) rest
  rest_forwards =
      All-update_first (λ r. is_backwards r ≡ false) (is_row c.id) gone rows c by_id h.forwards
        (All-Member (λ r. is_backwards r ≡ false) rows c h.forwards inside)

  rest_distinct : HasDistinct (λ r. r.id) rest
  rest_distinct =
      HasDistinct-update_first (λ r. r.id) (is_row c.id) gone rows (λ r. refl) h.distinct

  rest_numbered : All (λ r. r.id < n) rest
  rest_numbered =
      All-update_first (λ r. r.id < n) (is_row c.id) gone rows c by_id h.numbered
        (All-Member (λ r. r.id < n) rows c h.numbered inside)

  -- Every row of the employee that is left starts before the one that was deleted.
  rest_starts_before :
      (r : CompensationRecord)
      → Member r rest
      → is_live c.employee_id r ≡ true
      → r.effective_from < c.effective_from
  rest_starts_before r there live = elim (Bool-cases (ltb r.effective_from c.effective_from)) [
    | inl before ↦ ground arith
    | inr late ↦
        let forward = All-Member (λ s. is_backwards s ≡ false) rest r rest_forwards there in
        let one = h.one_rate c.employee_id r.effective_from in
        let counts = rest_sums (in_effect c.employee_id r.effective_from) (λ _. 1) (ground arith) in
        let counted_one =
          sum_where-Member (in_effect c.employee_id r.effective_from) (λ _. 1) rest r there
            (ground arith) in
        absurd (ground arith)
  ]

  abbrev pub prior : Option CompensationRecord
  prior = find_previous_for_employee c.employee_id c.effective_from rest

  -- What is left is empty, or its last row is live and starts last.
  pub prior_cases :
      ((prior ≡ none) × All (λ r. is_live c.employee_id r ≡ false) rest)
      ⊎ ((p : CompensationRecord) × (prior ≡ some p)
          × (is_live c.employee_id p ≡ true)
          × Member p rest
          × (find (is_row p.id) rest ≡ some p)
          × (p.effective_from < c.effective_from)
          × All (λ r. is_live c.employee_id r ≡ true → r.effective_from ≤ p.effective_from) rest)
  unfolding find_previous_for_employee
  prior_cases = elim (Option-cases prior) [
    | inl idle ↦
        let off = latest-none (starts_before c.employee_id c.effective_from) rest idle in
        inl (
          idle,
          All-of_Member (λ r. is_live c.employee_id r ≡ false) rest
              (λ r there.
                let before = rest_starts_before r there in
                let off_r =
                  All-Member (λ s. starts_before c.employee_id c.effective_from s ≡ false) rest r
                    off there in
                ground arith),
        )
    | inr (p, found) ↦
        let holds = latest_holds (starts_before c.employee_id c.effective_from) rest p found in
        let there = latest-Member (starts_before c.employee_id c.effective_from) rest p found in
        let last = latest_starts_last (starts_before c.employee_id c.effective_from) rest p found in
        inr (
          p,
          found,
          ground arith,
          there,
          find-own_key (λ r. r.id) (λ r. is_none r.deleted_at) rest p rest_distinct there
              (ground arith),
          ground arith,
          All-of_Member (λ r. is_live c.employee_id r ≡ true → r.effective_from ≤ p.effective_from)
              rest
              (λ r inside_r live.
                let before = rest_starts_before r inside_r live in
                All-Member
                  (λ s.
                    starts_before c.employee_id c.effective_from s ≡ true
                    → s.effective_from ≤ p.effective_from)
                  rest r last inside_r (ground arith)),
        )
  ]

  abbrev pub reopened : CompensationRecord → CompensationRecord
  reopened = patched (reopening by)

  -- Without the row and its predecessor, nothing is in effect once the predecessor has started.
  pub third_empty :
      (p : CompensationRecord) (d : Date)
      → find (is_row p.id) rest ≡ some p
      → is_live c.employee_id p ≡ true
      → Member p rest
      → All (λ r. is_live c.employee_id r ≡ true → r.effective_from ≤ p.effective_from) rest
      → p.effective_from ≤ d
      → rate_count c.employee_id d (without now by p.id rest) ≡ 0
  third_empty p d p_by_id live there bounds started =
      let e = c.employee_id in
      let forward = All-Member (λ s. is_backwards s ≡ false) rest p rest_forwards there in
      let one = h.one_rate e p.effective_from in
      let all = rest_sums (in_effect e p.effective_from) (λ _. 1) (ground arith) in
      let moved =
        sum_where-update_first (is_row p.id) gone (in_effect e p.effective_from) (λ _. 1) rest p
          p_by_id in
      let below =
        sum_where_mono (in_effect e d) (in_effect e p.effective_from) (λ _. 1)
          (λ r. is_live e r ≡ true → r.effective_from ≤ p.effective_from) (without now by p.id rest)
          (λ r bound on. let bounded = bound (ground arith) in ground arith)
          (All-update_first (λ r. is_live e r ≡ true → r.effective_from ≤ p.effective_from)
            (is_row p.id) gone rest p p_by_id bounds (λ on. absurd (ground arith))) in
      ground arith
