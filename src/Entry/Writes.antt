-- ===== src/Entry/Writes.antt =====
-- Every write of time-entries/time-entries.service.ts, and whole histories of them.
use asima_backend.Base.{
  ℕ, ◌<◌, ◌≡◌, refl, ◌⊎◌, inl, inr, ◌&&◌, [], ◌∷◌, Option, none, some, ok, err, Error, arith, find,
  is_none, update_first, Option-cases, Bool-cases, Result-cases, or_else, merge, sym, is_some,
  conflict_plain, employee_id, not_found, unprocessable, time_out,
}
use asima_backend.Db.{Db, Instant}
use asima_backend.Entry.Record.{TimeEntryRecord, closed, is_open}
use asima_backend.Entry.Aggregate.{TimeWindow, assert_window, derive_status, reconstitute, close}
use asima_backend.Entry.Repository.{is_row, find_by_id, find_open_for_employee}
use asima_backend.Entry.Service.{
  NewEntry, create_entry, update_entry, try_create, punch, create, CreateEntryInput, created_entry,
  update, UpdateEntryInput, edit_patch, soft_delete,
}
use asima_backend.Entry.Invariant.{
  IsSound, EndsAfter, IsTimesheet, find-All, replaced-IsTimesheet, open_count-closed,
  create_entry-IsTimesheet, update_entry-IsTimesheet, assert_window-EndsAfter,
}
use asima_backend.Entry.Punch.{
  punch_toggles, punched_out, punched_entry, IsRested, rested_check, open_row-IsSound,
  find-by_own_id,
}

same_table :
    (db db' : Db)
    → db'.entries ≡ db.entries
    → db'.next_id ≡ db.next_id
    → IsTimesheet db
    → IsTimesheet db'
same_table db db' rows ids h = record {
  sound = rw rows h.sound;
  one_open = rw rows h.one_open;
  distinct = rw rows h.distinct;
  numbered = rw (rows, ids) h.numbered;
}

try_create-tables :
    (e : Error) (n : NewEntry) (db : Db)
    → ((try_create e n db).1.entries ≡ (create_entry n db).1.entries)
      × ((try_create e n db).1.next_id ≡ (create_entry n db).1.next_id)
unfolding try_create
try_create-tables e n db = elim (Result-cases (create_entry n db).0) [
  | inl (r, good) ↦ ground arith
  | inr (x, bad) ↦ ground arith
]

pub try_create-IsTimesheet :
    (e : Error) (n : NewEntry) (db : Db)
    → is_open n.status ≡ is_none n.time_out
    → EndsAfter n.time_in n.time_out
    → IsTimesheet db
    → IsTimesheet (try_create e n db).1
try_create-IsTimesheet e n db derived strict h =
    let (rows, ids) = try_create-tables e n db in
    same_table (create_entry n db).1 (try_create e n db).1 rows ids
      (create_entry-IsTimesheet n db derived strict h)

-- A punch, case by case.
module _ (db : Db) (h : IsTimesheet db) where
  punch_opens :
      (i : Instant) (actor : ℕ)
      → IsRested i.now actor db
      → find_open_for_employee actor db.entries ≡ none
      → punch i actor db ≡ try_create conflict_plain (punched_entry i actor) db
  unfolding punch
  punch_opens i actor rested idle = let rest = rested_check i.now actor db rested in ground arith

  punch_closes :
      (i : Instant) (actor : ℕ) (row : TimeEntryRecord)
      → IsRested i.now actor db
      → find_open_for_employee actor db.entries ≡ some row
      → row.time_in < i.now
      → punch i actor db
        ≡ update_entry row.id (punched_out i.now actor) (closed row.id row.employee_id ∷ []) db
  unfolding punch reconstitute close assert_window find_open_for_employee
  punch_closes i actor row rested found late =
      let rest = rested_check i.now actor db rested in
      let (without, _) = open_row-IsSound actor db row h found in ground arith

  pub punch-IsTimesheet : (i : Instant) (actor : ℕ) → IsTimesheet (punch i actor db).1
  unfolding find_by_id find_open_for_employee
  punch-IsTimesheet i actor = elim (punch_toggles i actor db h) [
    | inl (_, _, _, same) ↦ rw same h
    | inr (inl (rested, idle, _)) ↦
        rw (punch_opens i actor rested idle)
          (try_create-IsTimesheet conflict_plain (punched_entry i actor) db refl tt h)
    | inr (inr (row, rested, found, late, _)) ↦ rw (punch_closes i actor row rested found late) (
        update_entry-IsTimesheet row.id (punched_out i.now actor)
          (closed row.id row.employee_id ∷ []) db
          (λ x hit. record {
            derived = refl;
            strict =
                let (own, _) = find-by_own_id actor db.entries row h.distinct found in
                let same : row ≡ x = ground arith in rw (sym same) late;
          })
          (λ _. refl) (λ _. refl) h)
  ]

  create_cases :
      (input : CreateEntryInput)
      → ((e : Error) × (create input db ≡ (err e, db)))
        ⊎ ((w : TimeWindow) × (assert_window input.time_in input.time_out time_out ≡ ok w)
            × (create input db ≡ try_create conflict_plain (created_entry input w) db))
  unfolding create
  create_cases input = elim (Result-cases (assert_window input.time_in input.time_out time_out)) [
    | inl (w, good) ↦
        elim (Bool-cases (
          is_none input.time_out
          && is_some (find_open_for_employee input.employee_id db.entries))) [
            | inl taken ↦ inl (unprocessable employee_id, ground arith)
            | inr free ↦ inr (w, good, ground arith)
          ]
    | inr (e, bad) ↦
        elim (Bool-cases (
          is_none input.time_out
          && is_some (find_open_for_employee input.employee_id db.entries))) [
            | inl taken ↦ inl (unprocessable employee_id, ground arith)
            | inr free ↦ inl (unprocessable e, ground arith)
          ]
  ]

  pub create-IsTimesheet : (input : CreateEntryInput) → IsTimesheet (create input db).1
  create-IsTimesheet input = elim (create_cases input) [
    | inl (_, same) ↦ rw same h
    | inr (w, good, same) ↦
        let (_, ends, strict) =
          assert_window-EndsAfter input.time_in input.time_out time_out w good in
        rw same
          (try_create-IsTimesheet conflict_plain (created_entry input w) db (ground arith) strict h)
  ]

  update_cases :
      (id : ℕ) (patch : UpdateEntryInput)
      → ((e : Error) × (update id patch db ≡ (err e, db)))
        ⊎ ((row : TimeEntryRecord) × (w : TimeWindow) × (find_by_id id db.entries ≡ some row)
            × (assert_window
                  (or_else patch.time_in row.time_in)
                  (merge patch.time_out row.time_out)
                  time_out
                ≡ ok w)
            × (update id patch db ≡ update_entry id (edit_patch patch (derive_status w)) [] db))
  unfolding update
  update_cases id patch = elim (Option-cases (find_by_id id db.entries)) [
    | inl missing ↦ inl (not_found, ground arith)
    | inr (row, found) ↦
        elim (Result-cases (
          assert_window (or_else patch.time_in row.time_in) (merge patch.time_out row.time_out)
            time_out)) [
              | inl (w, good) ↦ inr (row, w, found, good, ground arith)
              | inr (e, bad) ↦ inl (unprocessable e, ground arith)
            ]
  ]

  edited-IsSound :
      (id : ℕ) (patch : UpdateEntryInput) (row : TimeEntryRecord) (w : TimeWindow)
      → assert_window
          (or_else patch.time_in row.time_in)
          (merge patch.time_out row.time_out)
          time_out
        ≡ ok w
      → IsSound (edit_patch patch (derive_status w) row)
  edited-IsSound id patch row w good =
      let (_, ends, strict) =
        assert_window-EndsAfter (or_else patch.time_in row.time_in)
          (merge patch.time_out row.time_out) time_out w good in
      record { derived = ground arith; strict = strict }

  pub update-IsTimesheet : (id : ℕ) (patch : UpdateEntryInput) → IsTimesheet (update id patch db).1
  update-IsTimesheet id patch = elim (update_cases id patch) [
    | inl (_, same) ↦ rw same h
    | inr (row, w, found, good, same) ↦ rw same (
        update_entry-IsTimesheet id (edit_patch patch (derive_status w)) [] db
          (λ x hit.
            let same_row : row ≡ x = ground arith in
            rw (sym same_row) (edited-IsSound id patch row w good))
          (λ _. refl) (λ _. refl) h)
  ]

  pub soft_delete-IsTimesheet :
      (now id : ℕ) (deleted_by : Option ℕ) → IsTimesheet (soft_delete now id deleted_by db).1
  unfolding soft_delete find_by_id
  soft_delete-IsTimesheet now id deleted_by =
      let patch : TimeEntryRecord → TimeEntryRecord =
        λ r. record r { deleted_by = deleted_by; deleted_at = some now } in
      elim (Option-cases (find (is_row id) db.entries)) [
        | inl missing ↦
            let same : soft_delete now id deleted_by db ≡ (err not_found, db) = ground arith in
            rw same h
        | inr (row, found) ↦
            let same : (soft_delete now id deleted_by db).1
                ≡ record db { entries = update_first (is_row id) patch db.entries } =
              ground arith in
            let sound = find-All IsSound (is_row id) db.entries row found h.sound in
            let fewer = open_count-closed id patch db.entries row found (ground arith) in
            rw same (
              replaced-IsTimesheet id patch db row found
                (record { derived = sound.derived; strict = sound.strict }) (λ _. refl) (λ _. refl)
                (omega (arith, fewer, h.one_open row.employee_id)) h)
      ]
