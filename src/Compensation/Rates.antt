-- ===== src/Compensation/Rates.antt =====
-- The rates that the rows of compensation/ put in effect on each date, and what keeps them apart.
use asima_backend.Base.{
  sum_where-only, ℕ, ◌≤◌, ◌<◌, ◌≡◌, refl, sym, inl, inr, Bool, true, false, ◌&&◌, not, List, [],
  ◌∷◌, Option, none, some, arith, All, Member, HasDistinct, All-map, find, find_sound, find-own_key,
  find-Member, sum_where, update_first, ltb, is_none, ◌==◌, if◌then◌else◌, Bool-cases, Option-cases,
}
use asima_backend.Time.{Date}
use asima_backend.Compensation.Record.{CompensationRecord}
use asima_backend.Compensation.Repository.{
  is_row, is_live, is_active, in_effect, latest, find_rate_on_date, find_active_for_employee,
}
use asima_backend.Compensation.Store.{active_count, is_backwards}

abbrev pub rate_count : ℕ → Date → List CompensationRecord → ℕ
rate_count e d = sum_where (in_effect e d) (λ _. 1)

abbrev pub live_count : ℕ → List CompensationRecord → ℕ
live_count e = sum_where (is_live e) (λ _. 1)

-- One rate at most on each date, and an employee who has rows has an active one.
pub record IsPayroll (next_id : ℕ) (rows : List CompensationRecord) : Type 0 where
  pub one_rate : (e : ℕ) (d : Date) → rate_count e d rows ≤ 1
  pub one_active : (e : ℕ) → active_count e rows ≤ 1
  pub active_if_any : (e : ℕ) → active_count e rows ≡ 0 → live_count e rows ≡ 0
  pub forwards : All (λ r. is_backwards r ≡ false) rows
  pub distinct : HasDistinct (λ r. r.id) rows
  pub numbered : All (λ r. r.id < next_id) rows

-- A figure of the row that a search returns.
abbrev pub figure : (CompensationRecord → ℕ) → Option CompensationRecord → Option ℕ
figure f none = none
figure f (some r) = some (f r)

-- A figure of the pay of an employee on a date.
abbrev pub rate_on : (CompensationRecord → ℕ) → ℕ → Date → List CompensationRecord → Option ℕ
unfolding find_rate_on_date
rate_on f e d rows = figure f (find_rate_on_date e d rows)

abbrev pub counted : ℕ → ℕ → Option ℕ
counted n total = if n == 0 then none else some total

pub no_sum :
    (p : CompensationRecord → Bool) (f : CompensationRecord → ℕ) (rows : List CompensationRecord)
    → sum_where p (λ _. 1) rows ≡ 0
    → (sum_where p f rows ≡ 0) × (latest p rows ≡ none)
unfolding latest
no_sum p f [] h = (refl, refl)
no_sum p f (r ∷ rows) h = ground (arith, no_sum p f rows)

-- Where one row at most satisfies the test, the order of the rows says nothing.
pub latest-counted :
    (p : CompensationRecord → Bool) (f : CompensationRecord → ℕ) (rows : List CompensationRecord)
    → sum_where p (λ _. 1) rows ≤ 1
    → figure f (latest p rows) ≡ counted (sum_where p (λ _. 1) rows) (sum_where p f rows)
unfolding latest
latest-counted p f [] h = refl
latest-counted p f (r ∷ rows) h = ground (arith, no_sum p f rows, latest-counted p f rows)

pub latest-none :
    (p : CompensationRecord → Bool) (rows : List CompensationRecord)
    → latest p rows ≡ none
    → All (λ r. p r ≡ false) rows
unfolding latest
latest-none p [] h = tt
latest-none p (r ∷ rows) h = elim (Option-cases (latest p rows)) [
  | inl idle ↦ (ground arith, latest-none p rows idle)
  | inr (s, found) ↦ absurd (ground arith)
]

pub latest_holds :
    (p : CompensationRecord → Bool) (rows : List CompensationRecord) (x : CompensationRecord)
    → latest p rows ≡ some x
    → p x ≡ true
unfolding latest
latest_holds p [] x h = absurd (ground arith)
latest_holds p (r ∷ rows) x h = elim (Option-cases (latest p rows)) [
  | inl idle ↦ ground arith
  | inr (s, found) ↦ ground (arith, latest_holds p rows s found)
]

pub latest-Member :
    (p : CompensationRecord → Bool) (rows : List CompensationRecord) (x : CompensationRecord)
    → latest p rows ≡ some x
    → Member x rows
unfolding latest
latest-Member p [] x h = absurd (ground arith)
latest-Member p (r ∷ rows) x h = elim (Option-cases (latest p rows)) [
  | inl idle ↦ inl (ground arith)
  | inr (s, found) ↦ elim (Bool-cases (p r && not (ltb r.effective_from s.effective_from))) [
    | inl here ↦ inl (ground arith)
    | inr there ↦
        let same : s ≡ x = ground arith in inr (latest-Member p rows x (rw (sym same) found))
  ]
]

-- No row that satisfies the test starts after the one that the search returns.
pub latest_starts_last :
    (p : CompensationRecord → Bool) (rows : List CompensationRecord) (x : CompensationRecord)
    → latest p rows ≡ some x
    → All (λ r. p r ≡ true → r.effective_from ≤ x.effective_from) rows
unfolding latest
latest_starts_last p [] x h = tt
latest_starts_last p (r ∷ rows) x h = elim (Option-cases (latest p rows)) [
  | inl idle ↦ (
    λ on. ground arith,
    All-map (λ s. p s ≡ false) (λ s. p s ≡ true → s.effective_from ≤ x.effective_from) rows
        (λ s off on. absurd (ground arith)) (latest-none p rows idle),
  )
  | inr (s, found) ↦
      let bound : s.effective_from ≤ x.effective_from = ground arith in
      (
        λ on. ground arith,
        All-map (λ t. p t ≡ true → t.effective_from ≤ s.effective_from)
            (λ t. p t ≡ true → t.effective_from ≤ x.effective_from) rows
            (λ t below on. let below_t = below on in omega arith)
            (latest_starts_last p rows s found),
      )
]

pub rate_on-counted :
    (f : CompensationRecord → ℕ) (e : ℕ) (d : Date) (n : ℕ) (rows : List CompensationRecord)
    → IsPayroll n rows
    → rate_on f e d rows ≡ counted (rate_count e d rows) (sum_where (in_effect e d) f rows)
unfolding find_rate_on_date
rate_on-counted f e d n rows h = latest-counted (in_effect e d) f rows (h.one_rate e d)

none_active :
    (e : ℕ) (rows : List CompensationRecord)
    → find_active_for_employee e rows ≡ none
    → active_count e rows ≡ 0
unfolding find_active_for_employee
none_active e [] h = refl
none_active e (r ∷ rows) h = ground (arith, none_active e rows)

pub none_live :
    (e : ℕ) (d : Date) (f : CompensationRecord → ℕ) (rows : List CompensationRecord)
    → live_count e rows ≡ 0
    → (rate_count e d rows ≡ 0) × (sum_where (in_effect e d) f rows ≡ 0)
none_live e d f [] h = (refl, refl)
none_live e d f (r ∷ rows) h = ground (arith, none_live e d f rows)

-- An employee without an active row has no rate at all.
pub idle_rates :
    (e : ℕ) (d : Date) (f : CompensationRecord → ℕ) (n : ℕ) (rows : List CompensationRecord)
    → IsPayroll n rows
    → find_active_for_employee e rows ≡ none
    → (active_count e rows ≡ 0)
      × (live_count e rows ≡ 0)
      × (rate_count e d rows ≡ 0)
      × (sum_where (in_effect e d) f rows ≡ 0)
idle_rates e d f n rows h idle =
    let zero_active = none_active e rows idle in
    let zero_live = h.active_if_any e zero_active in
    let zero_rates = none_live e d f rows zero_live in
    (zero_active, zero_live, zero_rates.0, zero_rates.1)

-- The active row that a search finds is live, and the one of its id.
pub active_row :
    (e n : ℕ) (rows : List CompensationRecord) (p : CompensationRecord)
    → IsPayroll n rows
    → find_active_for_employee e rows ≡ some p
    → (is_active e p ≡ true) × (find (is_row p.id) rows ≡ some p) × Member p rows
unfolding find_active_for_employee
active_row e n rows p h found =
    let active = find_sound (is_active e) rows p found in
    let inside = find-Member (is_active e) rows p found in
    (
      active,
      find-own_key (λ r. r.id) (λ r. is_none r.deleted_at) rows p h.distinct inside (ground arith),
      inside,
    )

-- A write of a row that the test passes over, before and after.
pub latest-update_first :
    (p q : CompensationRecord → Bool) (f : CompensationRecord → CompensationRecord)
    (rows : List CompensationRecord) (x : CompensationRecord)
    → find q rows ≡ some x
    → p x ≡ false
    → p (f x) ≡ false
    → latest p (update_first q f rows) ≡ latest p rows
unfolding latest
latest-update_first p q f [] x found off off2 = refl
latest-update_first p q f (r ∷ rows) x found off off2 = elim (Bool-cases (q r)) [
  | inl here ↦ ground arith
  | inr there ↦ ground (arith, latest-update_first p q f rows x)
]

pub rate_of_Member :
    (f : CompensationRecord → ℕ) (e : ℕ) (d : Date) (n : ℕ) (rows : List CompensationRecord)
    (r : CompensationRecord)
    → IsPayroll n rows
    → Member r rows
    → in_effect e d r ≡ true
    → rate_on f e d rows ≡ some (f r)
rate_of_Member f e d n rows r h inside on =
    let only = sum_where-only (in_effect e d) f rows r (h.one_rate e d) inside on in
    rw (rate_on-counted f e d n rows h) (ground arith)
