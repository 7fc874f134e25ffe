-- ===== src/Schedule/CascadeLaws.antt =====
-- The decisions of work-schedules/domain/cascade-policy.ts.
use asima_backend.Base.{
  ℕ, zero, suc, ◌+◌, ◌-◌, ◌≤◌, ◌<◌, ◌≡◌, ◌≢◌, ◌↔◌, refl, ◌⊎◌, inl, inr, Bool, true, false, List, [],
  ◌∷◌, Option, some, arith, filter, any, ltb, is_empty, Bool-cases, if◌then◌else◌,
}
use asima_backend.Time.{Date, dates_from}
use asima_backend.Request.{Status, is_pending}
use asima_backend.Leave.{LeaveRequestRecord}
use asima_backend.Correction.{TimeCorrectionRequestRecord}
use asima_backend.Schedule.Record.{WorkScheduleRecord}
use asima_backend.Schedule.Cascade.{
  ScheduleChangeIntent, past, cancel, AffectedRequest, governs, governed_dates, min_of, max_of,
  temporal_class, classify, touches_leave, evaluate_dates, evaluate_leave, evaluate_correction,
}

any_of_filter :
    (p : Date → Bool) (ds : List Date) → is_empty (filter p ds) ≡ false → any p ds ≡ true
any_of_filter p [] h = absurd (ground arith)
any_of_filter p (d ∷ ds) h = ground (arith, any_of_filter p ds)

max_of-first : (d : Date) (ds : List Date) → d ≤ max_of d ds
max_of-first d [] = omega arith
max_of-first d (e ∷ ds) = ground (arith, max_of-first (if ltb e d then d else e) ds)

-- A governed date is no later than the last date.
max_of-governed :
    (intent : ScheduleChangeIntent) (d : Date) (ds : List Date)
    → any (governs intent) (d ∷ ds) ≡ true
    → intent.effective_from ≤ max_of d ds
max_of-governed intent d [] h = ground arith
max_of-governed intent d (e ∷ ds) h = ground (
  arith,
  max_of-first (if ltb e d then d else e) ds,
  max_of-governed intent (if ltb e d then d else e) ds,
)

min_of-range : (n d : ℕ) (m : Date) → m ≤ d → min_of m (dates_from n d) ≡ m
min_of-range zero d m h = refl
min_of-range (suc n) d m h = ground (arith, min_of-range n (d + 1) m)

-- What an evaluation that touches a request of the days from `first` to `last` says: the request is
-- not over, and it is cancelled exactly when it is pending or has not begun.
pub record IsDecided (a : AffectedRequest) (first : Date) (today : Date) : Type 0 where
  pub not_past : a.temporal ≢ past
  pub cancels : (a.decision ≡ cancel) ↔ ((is_pending a.status ≡ true) ⊎ (today < first))

class-decides :
    (intent : ScheduleChangeIntent) (n : ℕ) (first today : Date) (status : Status)
    → today ≤ intent.effective_from
    → any (governs intent) (first ∷ dates_from n (first + 1)) ≡ true
    → (temporal_class first (dates_from n (first + 1)) today ≢ past)
      × ((classify (temporal_class first (dates_from n (first + 1)) today) status ≡ cancel)
          ↔ ((is_pending status ≡ true) ⊎ (today < first)))
unfolding temporal_class classify
class-decides intent n first today status forward governed =
    let late = max_of-governed intent first (dates_from n (first + 1)) governed in
    let begins = min_of-range n (first + 1) first (omega arith) in ground arith

evaluate_dates-some :
    (lv : LeaveRequestRecord) (live : Option WorkScheduleRecord) (intent : ScheduleChangeIntent)
    (today : Date) (k : ℕ) (a : AffectedRequest)
    → evaluate_dates lv live intent today (dates_from k lv.start_date) ≡ some a
    → (n : ℕ) × (any (governs intent) (lv.start_date ∷ dates_from n (lv.start_date + 1)) ≡ true)
      × (touches_leave lv live intent ≡ true)
      × (a.status ≡ lv.status)
      × (a.temporal ≡ temporal_class lv.start_date (dates_from n (lv.start_date + 1)) today)
      × (a.decision ≡ classify a.temporal lv.status)
unfolding evaluate_dates governed_dates
evaluate_dates-some lv live intent today zero a h = absurd (ground arith)
evaluate_dates-some lv live intent today (suc n) a h =
    let dates = lv.start_date ∷ dates_from n (lv.start_date + 1) in
    elim (Bool-cases (is_empty (filter (governs intent) dates))) [
      | inl clear ↦ absurd (ground arith)
      | inr hit ↦
          let governed = any_of_filter (governs intent) dates hit in
          elim (Bool-cases (touches_leave lv live intent)) [
            | inl touched ↦ (n, governed, touched, ground arith, ground arith, ground arith)
            | inr spared ↦ absurd (ground arith)
          ]
    ]

-- Under a change from today on, a leave request that the change touches is not over, and it is
-- cancelled exactly when it is pending or starts after today; an approved request that has begun is
-- kept.
pub evaluate_leave-IsDecided :
    (lv : LeaveRequestRecord) (live : Option WorkScheduleRecord) (intent : ScheduleChangeIntent)
    (today : Date) (a : AffectedRequest)
    → today ≤ intent.effective_from
    → evaluate_leave lv live intent today ≡ some a
    → IsDecided a lv.start_date today
unfolding evaluate_leave
evaluate_leave-IsDecided lv live intent today a forward h =
    let (n, governed, _, status, temporal, decision) =
      evaluate_dates-some lv live intent today (lv.end_date + 1 - lv.start_date) a h in
    let (not_past, cancels) =
      class-decides intent n lv.start_date today lv.status forward governed in
    record { not_past = rw temporal not_past; cancels = rw (decision, status, temporal) cancels }

-- Under a change from today on, a time correction that the change touches is not of a past day, and
-- it is cancelled exactly when it is pending or its work date is after today.
pub evaluate_correction-IsDecided :
    (tc : TimeCorrectionRequestRecord) (live : Option WorkScheduleRecord)
    (intent : ScheduleChangeIntent) (today : Date) (a : AffectedRequest)
    → today ≤ intent.effective_from
    → evaluate_correction tc live intent today ≡ some a
    → IsDecided a tc.work_date today
unfolding evaluate_correction governed_dates
evaluate_correction-IsDecided tc live intent today a forward h =
    let governed : any (governs intent) (tc.work_date ∷ dates_from 0 (tc.work_date + 1)) ≡ true =
      ground arith in
    let (not_past, cancels) =
      class-decides intent 0 tc.work_date today tc.status forward governed in
    let temporal : a.temporal ≡ temporal_class tc.work_date [] today = ground arith in
    let decision : a.decision ≡ classify a.temporal tc.status = ground arith in
    let status : a.status ≡ tc.status = ground arith in
    record { not_past = rw temporal not_past; cancels = rw (decision, status, temporal) cancels }
