-- ===== src/Entry/Punch.antt =====
-- The punch clock: `punch` of time-entries/time-entries.service.ts.
use native.Mathlib.Decide.{dec_le}
use asima_backend.Base.{
  ℕ, ◌+◌, ◌-◌, ◌/◌, ◌≤◌, ◌<◌, ◌≡◌, refl, ◌⊎◌, inl, inr, true, false, ◌==◌, List, [], ◌∷◌, ◌++◌,
  none, some, ok, err, arith, any, find, find_sound, sum_where-append, sum_where-update_first,
  update_first, Option-cases, Bool-cases, sym, too_many_requests,
}
use asima_backend.Db.{Db, Instant}
use asima_backend.Entry.Record.{TimeEntryRecord, manual, open_entry, confirmed, opened, closed}
use asima_backend.Entry.Aggregate.{assert_window, reconstitute, close}
use asima_backend.Entry.Repository.{
  is_row, find_by_id, is_open_of, is_live_entry_of, open_count, violates_one_open,
  find_open_for_employee, find_latest_for_employee, last_event, later,
}
use asima_backend.Entry.Service.{
  NewEntry, new_entry, create_entry, update_entry, try_create, punch, assert_not_in_cooldown,
  cooldown_ms,
}
use asima_backend.Entry.Invariant.{IsSound, HasDistinctIds, IsTimesheet, find-All}

-- The latest row is at least as late as any row of the employee that a search finds.
latest_bound :
    (e : ℕ) (rows : List TimeEntryRecord) (row : TimeEntryRecord)
    → find (is_open_of e) rows ≡ some row
    → (l : TimeEntryRecord) × (find_latest_for_employee e rows ≡ some l)
      × (last_event row ≤ last_event l)
unfolding find_latest_for_employee
latest_bound e [] row h = absurd (ground arith)
latest_bound e (x ∷ rows) row h = elim (Bool-cases (is_open_of e x)) [
  | inl here ↦ elim (Option-cases (find_latest_for_employee e rows)) [
    | inl last ↦ (x, ground arith, ground arith)
    | inr (l, rest) ↦ (later x (some l), ground arith, ground arith)
  ]
  | inr there ↦
      let (l, rest, bound) = latest_bound e rows row (ground arith) in
      elim (Bool-cases (is_live_entry_of e x)) [
        | inl live ↦ (later x (some l), ground arith, ground arith)
        | inr other ↦ (l, ground arith, bound)
      ]
]

-- Where ids are distinct, a row that any search finds is the one that its id finds.
pub find-by_own_id :
    (e : ℕ) (rows : List TimeEntryRecord) (row : TimeEntryRecord)
    → HasDistinctIds rows
    → find (is_open_of e) rows ≡ some row
    → (find (is_row row.id) rows ≡ some row) × (any (λ x. x.id == row.id) rows ≡ true)
find-by_own_id e [] row d h = absurd (ground arith)
find-by_own_id e (x ∷ rows) row (dx, d) h = elim (Bool-cases (is_open_of e x)) [
  | inl here ↦ (ground arith, ground arith)
  | inr there ↦ ground (arith, find-by_own_id e rows row d)
]

none_open :
    (e : ℕ) (rows : List TimeEntryRecord) → find (is_open_of e) rows ≡ none → open_count e rows ≡ 0
none_open e [] h = refl
none_open e (x ∷ rows) h = ground (arith, none_open e rows)

-- The employee's last punch is at least the cooldown ago.
abbrev pub IsRested : ℕ → ℕ → Db → Type 0
IsRested now e db =
    (l : TimeEntryRecord)
    → find_latest_for_employee e db.entries ≡ some l
    → last_event l + cooldown_ms ≤ now

abbrev pub punched_entry : Instant → ℕ → NewEntry
punched_entry i actor = record {
  employee_id = actor;
  work_date = i.utc_today;
  time_in = i.now;
  time_out = none;
  source = manual;
  status = open_entry;
  notes = none;
  created_by = some actor;
}

-- The row that a punch in inserts.
abbrev pub punched_in : Instant → ℕ → ℕ → TimeEntryRecord
punched_in i actor id = new_entry (punched_entry i actor) id

-- The open row after a punch out.
abbrev pub punched_out : ℕ → ℕ → TimeEntryRecord → TimeEntryRecord
punched_out now actor row = record row {
  time_out = some now;
  status = confirmed;
  updated_by = some actor;
}

pub rested_check :
    (now e : ℕ) (db : Db) → IsRested now e db → assert_not_in_cooldown now e db ≡ (ok tt, db)
unfolding assert_not_in_cooldown
rested_check now e db rested = elim (Option-cases (find_latest_for_employee e db.entries)) [
  | inl never ↦ ground arith
  | inr (l, latest) ↦ let bound = rested l latest in ground arith
]

IsRested-or_not :
    (now e : ℕ) (db : Db)
    → ((l : TimeEntryRecord) × (find_latest_for_employee e db.entries ≡ some l)
        × (now < last_event l + cooldown_ms))
      ⊎ IsRested now e db
IsRested-or_not now e db = elim (Option-cases (find_latest_for_employee e db.entries)) [
  | inl never ↦ inr (λ l latest. absurd (ground arith))
  | inr (l, latest) ↦ elim (dec_le (last_event l + cooldown_ms) now) [
    | yes rested ↦ inr (λ m found. let same : l ≡ m = ground arith in rw (sym same) rested)
    | no soon ↦ inl (l, latest, ground arith)
  ]
]

pub open_row-IsSound :
    (e : ℕ) (db : Db) (row : TimeEntryRecord)
    → IsTimesheet db
    → find (is_open_of e) db.entries ≡ some row
    → (row.time_out ≡ none) × (is_open_of e row ≡ true)
open_row-IsSound e db row h found =
    let hit = find_sound (is_open_of e) db.entries row found in
    let sound = (find-All IsSound (is_open_of e) db.entries row found h.sound).derived in
    (
      elim (Option-cases row.time_out) [
        | inl without ↦ without
        | inr (t, ended) ↦ absurd (ground arith)
      ],
      hit,
    )

create_accepted :
    (n : NewEntry) (db : Db)
    → violates_one_open n.employee_id (db.entries ++ new_entry n db.next_id ∷ []) ≡ false
    → create_entry n db ≡ (
      ok (new_entry n db.next_id),
      record db { next_id = db.next_id + 1; entries = db.entries ++ new_entry n db.next_id ∷ [] },
    )
unfolding create_entry
create_accepted n db fits = ground arith

module _ (i : Instant) (actor : ℕ) (db : Db) (h : IsTimesheet db) where
  pub punch_in :
      IsRested i.now actor db
      → find_open_for_employee actor db.entries ≡ none
      → let row = punched_in i actor db.next_id in
        punch i actor db ≡ (
          ok row,
          record db {
            next_id = db.next_id + 1;
            entries = db.entries ++ row ∷ [];
            entry_events = db.entry_events ++ opened row.id actor i.utc_today ∷ [];
          },
        )
  unfolding punch find_open_for_employee try_create
  punch_in rested idle =
      let row = punched_in i actor db.next_id in
      let rest = rested_check i.now actor db rested in
      let zero_open = none_open actor db.entries idle in
      let split = sum_where-append (is_open_of actor) (λ _. 1) db.entries (row ∷ []) in
      let accepted = create_accepted (punched_entry i actor) db (ground arith) in ground arith

  pub punch_out :
      (row : TimeEntryRecord)
      → IsRested i.now actor db
      → find_open_for_employee actor db.entries ≡ some row
      → punch i actor db ≡ (
        ok (punched_out i.now actor row),
        record db {
          entries = update_first (is_row row.id) (punched_out i.now actor) db.entries;
          entry_events = db.entry_events ++ closed row.id actor ∷ [];
        },
      )
  unfolding punch find_open_for_employee update_entry find_by_id reconstitute close assert_window
  punch_out row rested found =
      let rest = rested_check i.now actor db rested in
      let (l, latest, bound) = latest_bound actor db.entries row found in
      let late = rested l latest in
      let (without, hit) = open_row-IsSound actor db row h found in
      let (own, _) = find-by_own_id actor db.entries row h.distinct found in
      let moved =
        sum_where-update_first (is_row row.id) (punched_out i.now actor) (is_open_of actor) (λ _. 1)
          db.entries row own in
      let before = h.one_open actor in ground arith

  starts_before :
      (row : TimeEntryRecord)
      → IsRested i.now actor db
      → find_open_for_employee actor db.entries ≡ some row
      → row.time_in < i.now
  unfolding find_open_for_employee
  starts_before row rested found =
      let (l, latest, bound) = latest_bound actor db.entries row found in
      let late = rested l latest in
      let (without, _) = open_row-IsSound actor db row h found in ground arith

  cooling_check :
      (l : TimeEntryRecord)
      → find_latest_for_employee actor db.entries ≡ some l
      → i.now < last_event l + cooldown_ms
      → punch i actor db
        ≡ (err (too_many_requests ((last_event l + cooldown_ms - i.now + 999) / 1000)), db)
  unfolding punch assert_not_in_cooldown
  cooling_check l latest soon = ground arith

  -- On a table that is in order a punch has one of three outcomes. Within the cooldown after the
  -- employee's last punch it is refused with the seconds that are left, and nothing changes. After
  -- it, an employee without an open entry gets one that starts now, and an employee with an open
  -- entry has it closed now. No other error occurs.
  pub punch_toggles :
      ((l : TimeEntryRecord) × (find_latest_for_employee actor db.entries ≡ some l)
        × (i.now < last_event l + cooldown_ms)
        × (punch i actor db
            ≡ (err (too_many_requests ((last_event l + cooldown_ms - i.now + 999) / 1000)), db)))
      ⊎ (IsRested i.now actor db
          × (find_open_for_employee actor db.entries ≡ none)
          × (punch i actor db ≡ (
            ok (punched_in i actor db.next_id),
            record db {
              next_id = db.next_id + 1;
              entries = db.entries ++ punched_in i actor db.next_id ∷ [];
              entry_events = db.entry_events ++ opened db.next_id actor i.utc_today ∷ [];
            },
          )))
      ⊎ ((row : TimeEntryRecord) × IsRested i.now actor db
          × (find_open_for_employee actor db.entries ≡ some row)
          × (row.time_in < i.now)
          × (punch i actor db ≡ (
            ok (punched_out i.now actor row),
            record db {
              entries = update_first (is_row row.id) (punched_out i.now actor) db.entries;
              entry_events = db.entry_events ++ closed row.id actor ∷ [];
            },
          )))
  punch_toggles = elim (IsRested-or_not i.now actor db) [
    | inl (l, latest, soon) ↦ inl (l, latest, soon, cooling_check l latest soon)
    | inr rested ↦ elim (Option-cases (find_open_for_employee actor db.entries)) [
      | inl idle ↦ inr (inl (rested, idle, punch_in rested idle))
      | inr (row, found) ↦
          inr (inr (row, rested, found, starts_before row rested found, punch_out row rested found))
    ]
  ]
