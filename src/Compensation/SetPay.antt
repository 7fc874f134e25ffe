-- ===== src/Compensation/SetPay.antt =====
-- What `create` of compensation/compensation.service.ts makes of the rates of an employee.
use asima_backend.Base.{
  sum_where-only, ℕ, ◌+◌, ◌<◌, ◌≡◌, refl, ◌⊎◌, inl, inr, Bool, true, false, ◌&&◌, List, [], ◌∷◌,
  ◌++◌, Option, none, some, arith, All, All-map, All-snoc, All-update_first, HasDistinct-snoc,
  HasDistinct-update_first, unused_key, find, sum_where, sum_where-Member, All-Member, HasDistinct,
  sum_where-append, sum_where-update_first, update_first, Member, Member-snoc, Member-append,
  Member-update_first, leb, ltb, ◌==◌, if◌then◌else◌, Option-cases,
}
use asima_backend.Time.{Date, day_before}
use asima_backend.Compensation.Record.{CompensationRecord}
use asima_backend.Compensation.Repository.{
  is_row, is_live, is_active, in_effect, find_active_for_employee,
}
use asima_backend.Compensation.Store.{active_count, is_backwards, patched}
use asima_backend.Compensation.Service.{ending}
use asima_backend.Compensation.Rates.{
  rate_count, live_count, IsPayroll, rate_on, rate_on-counted, idle_rates, active_row,
}

-- The figures of a row that end-dating does not touch.
abbrev pub IsFigure : (CompensationRecord → ℕ) → Type 0
IsFigure f =
    (r : CompensationRecord) (to : Option Date) (by : Option ℕ)
    → f (record r { effective_to = to; updated_by = by }) ≡ f r

-- The rows after the prior active one, if any, is ended and `new` is added.
unfoldable pub set_rows :
    Option ℕ → CompensationRecord → List CompensationRecord → List CompensationRecord
unfolding find_active_for_employee
set_rows actor new rows = elim (find_active_for_employee new.employee_id rows) [
  | none ↦ rows ++ new ∷ []
  | some p ↦ update_first (is_row p.id) (patched (ending new.effective_from actor)) rows ++ new ∷ []
]

-- The prior active row, if any, starts before the date.
unfoldable pub starts_after_prior : ℕ → Date → List CompensationRecord → Bool
unfolding find_active_for_employee
starts_after_prior e x rows = elim (find_active_for_employee e rows) [
  | none ↦ true
  | some p ↦ ltb p.effective_from x
]

module _ (actor : Option ℕ) (new : CompensationRecord) (n : ℕ) (rows : List CompensationRecord)
    (h : IsPayroll n rows) (own : new.id ≡ n) (stays : new.deleted_at ≡ none)
    (open_end : new.effective_to ≡ none)
    (after : starts_after_prior new.employee_id new.effective_from rows ≡ true) where
  abbrev pub ended : CompensationRecord → CompensationRecord
  ended p = patched (ending new.effective_from actor) p

  -- The sums over the rows after, from those over the rows before.
  set_cases :
      ((find_active_for_employee new.employee_id rows ≡ none)
        × (set_rows actor new rows ≡ rows ++ new ∷ [])
        × ((q : CompensationRecord → Bool) (g : CompensationRecord → ℕ)
            → sum_where q g (set_rows actor new rows)
              ≡ sum_where q g rows + (if q new then g new else 0)))
      ⊎ ((p : CompensationRecord) × (find (is_row p.id) rows ≡ some p)
          × (set_rows actor new rows ≡ update_first (is_row p.id) ended rows ++ new ∷ [])
          × (is_active new.employee_id p ≡ true)
          × Member p rows
          × (p.effective_from < new.effective_from)
          × ((q : CompensationRecord → Bool) (g : CompensationRecord → ℕ)
              → sum_where q g (set_rows actor new rows) + (if q p then g p else 0)
                ≡ sum_where q g rows
                  + (if q (ended p) then g (ended p) else 0)
                  + (if q new then g new else 0)))
  unfolding set_rows starts_after_prior find_active_for_employee
  set_cases = elim (Option-cases (find_active_for_employee new.employee_id rows)) [
    | inl idle ↦ inl (
      idle,
      ground arith,
      λ q g. let split = sum_where-append q g rows (new ∷ []) in ground arith,
    )
    | inr (p, found) ↦
        let (active, by_id, inside) = active_row new.employee_id n rows p h found in
        inr (
          p,
          by_id,
          ground arith,
          active,
          inside,
          ground arith,
          λ q g.
              let moved = sum_where-update_first (is_row p.id) ended q g rows p by_id in
              let split = sum_where-append q g (update_first (is_row p.id) ended rows) (new ∷ []) in
              ground arith,
        )
  ]

  -- The rates on a date: the new row from its start on, what there was before it.
  set_effect :
      (f : CompensationRecord → ℕ)
      → IsFigure f
      → (e : ℕ) (d : Date)
      → let starts = e == new.employee_id && leb new.effective_from d in
        (rate_count e d (set_rows actor new rows) ≡ (if starts then 1 else rate_count e d rows))
        × (sum_where (in_effect e d) f (set_rows actor new rows)
            ≡ (if starts then f new else sum_where (in_effect e d) f rows))
  set_effect f fig e d = elim set_cases [
    | inl (idle, shape, sums) ↦
        let counts = sums (in_effect e d) (λ _. 1) in
        let figures = sums (in_effect e d) f in
        let zero = idle_rates new.employee_id d f n rows h idle in ground arith
    | inr (p, by_id, shape, active, inside, before, sums) ↦
        let counts = sums (in_effect e d) (λ _. 1) in
        let figures = sums (in_effect e d) f in
        let same = fig p (some (day_before new.effective_from)) (ended p).updated_by in
        let only = sum_where-only (in_effect e d) f rows p (h.one_rate e d) inside in ground arith
  ]

  set_actives :
      (e : ℕ)
      → (active_count e (set_rows actor new rows)
          ≡ (if e == new.employee_id then 1 else active_count e rows))
        × ((e ≡ new.employee_id → ⊥) → live_count e (set_rows actor new rows) ≡ live_count e rows)
  set_actives e = elim set_cases [
    | inl (idle, shape, sums) ↦
        let counts = sums (is_active e) (λ _. 1) in
        let lives = sums (is_live e) (λ _. 1) in
        let zero = idle_rates new.employee_id 0 (λ _. 1) n rows h idle in
        (ground arith, λ other. ground arith)
    | inr (p, by_id, shape, active, inside, before, sums) ↦
        let counts = sums (is_active e) (λ _. 1) in
        let lives = sums (is_live e) (λ _. 1) in
        let one = h.one_active e in
        let only = sum_where-Member (is_active e) (λ _. 1) rows p inside in
        (ground arith, λ other. ground arith)
  ]

  set_forwards : All (λ r. is_backwards r ≡ false) (set_rows actor new rows)
  set_forwards = elim set_cases [
    | inl (idle, shape, sums) ↦
        rw shape (All-snoc (λ r. is_backwards r ≡ false) rows new h.forwards (ground arith))
    | inr (p, by_id, shape, active, inside, before, sums) ↦
        let kept =
          All-update_first (λ r. is_backwards r ≡ false) (is_row p.id) ended rows p by_id h.forwards
            (ground arith) in
        rw shape (
          All-snoc (λ r. is_backwards r ≡ false) (update_first (is_row p.id) ended rows) new kept
            (ground arith))
  ]

  set_ids :
      HasDistinct (λ r. r.id) (set_rows actor new rows)
      × All (λ r. r.id < n + 1) (set_rows actor new rows)
  set_ids = elim set_cases [
    | inl (idle, shape, sums) ↦ rw shape (
      HasDistinct-snoc (λ r. r.id) rows new h.distinct
          (rw own (unused_key (λ r. r.id) rows n h.numbered)),
      All-snoc (λ r. r.id < n + 1) rows new
          (All-map (λ r. r.id < n) (λ r. r.id < n + 1) rows (λ r low. omega arith) h.numbered)
          (omega arith),
    )
    | inr (p, by_id, shape, active, inside, before, sums) ↦
        let kept =
          HasDistinct-update_first (λ r. r.id) (is_row p.id) ended rows (λ r. refl) h.distinct in
        let below =
          All-update_first (λ r. r.id < n) (is_row p.id) ended rows p by_id h.numbered
            (All-Member (λ r. r.id < n) rows p h.numbered inside) in
        rw shape (
          HasDistinct-snoc (λ r. r.id) (update_first (is_row p.id) ended rows) new kept
              (rw own (unused_key (λ r. r.id) (update_first (is_row p.id) ended rows) n below)),
          All-snoc (λ r. r.id < n + 1) (update_first (is_row p.id) ended rows) new
              (All-map (λ r. r.id < n) (λ r. r.id < n + 1) (update_first (is_row p.id) ended rows)
                (λ r low. omega arith) below)
              (omega arith),
        )
  ]

  pub set_rows-IsPayroll : IsPayroll (n + 1) (set_rows actor new rows)
  set_rows-IsPayroll = record {
    one_rate = λ e d.
        let one = h.one_rate e d in
        let effect = set_effect (λ _. 1) (λ r to by. refl) e d in ground arith;
    one_active = λ e. let one = h.one_active e in let actives = set_actives e in ground arith;
    active_if_any =
        λ e none_now. let same = h.active_if_any e in let actives = set_actives e in ground arith;
    forwards = set_forwards;
    distinct = set_ids.0;
    numbered = set_ids.1;
  }

  -- The pay of every employee on every date after the change.
  pub set_rows-rate_on :
      (f : CompensationRecord → ℕ)
      → IsFigure f
      → (e : ℕ) (d : Date)
      → rate_on f e d (set_rows actor new rows) ≡ (
          if e == new.employee_id && leb new.effective_from d
          then some (f new)
          else rate_on f e d rows)
  set_rows-rate_on f fig e d =
      let (counts, figures) = set_effect f fig e d in
      let before = rate_on-counted f e d n rows h in
      let later = rate_on-counted f e d (n + 1) (set_rows actor new rows) set_rows-IsPayroll in
      rw later (rw before (ground arith))

  pub set_rows-Member : Member new (set_rows actor new rows)
  set_rows-Member = elim set_cases [
    | inl (idle, shape, sums) ↦ rw shape (Member-snoc rows new)
    | inr (p, by_id, shape, active, inside, before, sums) ↦
        rw shape (Member-snoc (update_first (is_row p.id) ended rows) new)
  ]

  -- The employee had no rate, or an active row that is still there and ends before the new one.
  pub prior_kept :
      ((e_rates : (f : CompensationRecord → ℕ) (d : Date) → rate_on f new.employee_id d rows ≡ none)
        × (find_active_for_employee new.employee_id rows ≡ none))
      ⊎ ((p : CompensationRecord) × (is_active new.employee_id p ≡ true)
          × Member p rows
          × (p.effective_from < new.effective_from)
          × Member (ended p) (set_rows actor new rows))
  prior_kept = elim set_cases [
    | inl (idle, shape, sums) ↦ inl (
      λ f d.
          let (a, b, zero, total) = idle_rates new.employee_id d f n rows h idle in
          rw (rate_on-counted f new.employee_id d n rows h) (ground arith),
      idle,
    )
    | inr (p, by_id, shape, active, inside, before, sums) ↦ inr (
      p,
      active,
      inside,
      before,
      rw shape (
          Member-append (update_first (is_row p.id) ended rows) (new ∷ []) (ended p)
            (Member-update_first (is_row p.id) ended rows p by_id)),
    )
  ]
