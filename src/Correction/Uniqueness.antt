-- ===== src/Correction/Uniqueness.antt =====
-- The duplicate checks of `submit` of
-- time-correction-requests/time-correction-requests.service.ts.
use asima_backend.Base.{
  ℕ, ◌≤◌, ◌≡◌, refl, ◌⊎◌, inl, inr, Bool, true, ◌&&◌, List, [], ◌∷◌, ◌++◌, Option, none, some,
  Result, ok, err, Error, arith, is_empty, is_some, sum_where, sum_where-append, same_option,
  Bool-cases, Option-cases,
}
use asima_backend.Access.{User}
use asima_backend.Chain as Chains
use asima_backend.Db.{Db, Instant}
use asima_backend.Correction.Record.{TimeCorrectionRequestRecord}
use asima_backend.Correction.Repository.{is_live, find_active_for_entry}
use asima_backend.Correction.Service.{SubmitCorrectionInput, submit, new_request}

abbrev pub corrects : ℕ → TimeCorrectionRequestRecord → Bool
corrects entry r = same_option r.target_entry_id (some entry) && is_live r

-- The pending and approved corrections of an entry.
abbrev pub live_count : ℕ → List TimeCorrectionRequestRecord → ℕ
live_count entry = sum_where (corrects entry) (λ _. 1)

none_live :
    (entry : ℕ) (rows : List TimeCorrectionRequestRecord)
    → is_empty (find_active_for_entry entry rows) ≡ true
    → live_count entry rows ≡ 0
unfolding find_active_for_entry
none_live entry [] h = refl
none_live entry (r ∷ rows) h = ground (arith, none_live entry rows)

abbrev to_option : {A : Type 0} → Result Error A → Option A
to_option (ok a) = some a
to_option (err _) = none

submit_appends :
    (i : Instant) (input : SubmitCorrectionInput) (actor : User) (db : Db)
    → ((submit i input actor db).1.corrections ≡ db.corrections)
      ⊎ ((l1 : ℕ) × (l2 : Option ℕ) × ((submit i input actor db).1.corrections
            ≡ db.corrections ++ new_request i input actor l1 l2 db.next_id ∷ [])
          × ((entry : ℕ)
              → input.target_entry_id ≡ some entry
              → is_empty (find_active_for_entry entry db.corrections) ≡ true))
unfolding submit
submit_appends i input actor db =
    elim (Option-cases (Chains.get_active input.employee_id db.chains).l1_approver_id) [
      | inl missing ↦ inl (ground arith)
      | inr (l1, there) ↦ elim (Option-cases input.target_entry_id) [
        | inl log ↦ elim (Bool-cases (is_some (to_option (submit i input actor db).0))) [
          | inl good ↦ inr (
            l1,
            (Chains.get_active input.employee_id db.chains).l2_approver_id,
            ground arith,
            λ entry same. absurd (ground arith),
          )
          | inr bad ↦ inl (ground arith)
        ]
        | inr (entry, targeted) ↦
            elim (Bool-cases (is_some (to_option (submit i input actor db).0))) [
              | inl good ↦ inr (
                l1,
                (Chains.get_active input.employee_id db.chains).l2_approver_id,
                ground arith,
                λ e same. ground arith,
              )
              | inr bad ↦ inl (ground arith)
            ]
      ]
    ]

-- At most one correction of an entry is pending or approved at a time: a submission keeps this,
-- whether it succeeds or not.
pub submit-live_count :
    (i : Instant) (input : SubmitCorrectionInput) (actor : User) (db : Db) (entry : ℕ)
    → live_count entry db.corrections ≤ 1
    → live_count entry (submit i input actor db).1.corrections ≤ 1
submit-live_count i input actor db entry h = elim (submit_appends i input actor db) [
  | inl same ↦ rw same h
  | inr (l1, l2, grown, first) ↦
      let row = new_request i input actor l1 l2 db.next_id in
      let split = sum_where-append (corrects entry) (λ _. 1) db.corrections (row ∷ []) in
      rw grown (elim (Bool-cases (same_option input.target_entry_id (some entry))) [
        | inl same ↦
            let idle = none_live entry db.corrections (first entry (ground arith)) in
            ground (arith, split, idle)
        | inr other ↦ ground (arith, split)
      ])
]
