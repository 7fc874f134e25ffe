-- ===== src/Entry/Invariant.antt =====
-- The table of time entries: what every write of it keeps.
use asima_backend.Base.{
  ℕ, ◌+◌, ◌≤◌, ◌<◌, ◌≡◌, refl, ◌⊎◌, inl, inr, Bool, false, ◌==◌, List, [], ◌∷◌, ◌++◌, Option, none,
  some, ok, arith, All, any, any-append, find, is_none, sum_where-append, sum_where-update_first,
  update_first, Option-cases, Bool-cases, sym,
}
use asima_backend.Db.{Db}
use asima_backend.Entry.Record.{TimeEntryRecord, EntryEvent, is_open}
use asima_backend.Entry.Aggregate.{TimeWindow, assert_window}
use asima_backend.Entry.Repository.{is_row, find_by_id, is_open_of, open_count, violates_one_open}
use asima_backend.Entry.Service.{NewEntry, new_entry, create_entry, update_entry}

abbrev pub EndsAfter : ℕ → Option ℕ → Type 0
EndsAfter t_in none = Unit
EndsAfter t_in (some t_out) = t_in < t_out

-- A row is open exactly as long as it has no end, and ends after it starts.
pub record IsSound (r : TimeEntryRecord) : Type 0 where
  pub derived : is_open r.status ≡ is_none r.time_out
  pub strict : EndsAfter r.time_in r.time_out

abbrev pub HasDistinctIds : List TimeEntryRecord → Type 0
HasDistinctIds [] = Unit
HasDistinctIds (r ∷ rows) = (any (λ x. x.id == r.id) rows ≡ false) × HasDistinctIds rows

pub record IsTimesheet (db : Db) : Type 0 where
  pub sound : All IsSound db.entries
  pub one_open : (employee_id : ℕ) → open_count employee_id db.entries ≤ 1
  pub distinct : HasDistinctIds db.entries
  pub numbered : All (λ r. r.id < db.next_id) db.entries

pub assert_window-EndsAfter :
    (t_in : ℕ) (t_out : Option ℕ) (f : _) (w : TimeWindow)
    → assert_window t_in t_out f ≡ ok w
    → (w.starts ≡ t_in) × (w.ends ≡ t_out) × EndsAfter t_in t_out
unfolding assert_window
assert_window-EndsAfter t_in none f w h = ground arith
assert_window-EndsAfter t_in (some t) f w h = ground arith

All-snoc :
    (P : TimeEntryRecord → Type 0) (rows : List TimeEntryRecord) (r : TimeEntryRecord)
    → All P rows
    → P r
    → All P (rows ++ r ∷ [])
All-snoc P [] r h k = (k, tt)
All-snoc P (x ∷ rows) r (hx, h) k = (hx, All-snoc P rows r h k)

pub fresh_id :
    (rows : List TimeEntryRecord) (n : ℕ)
    → All (λ r. r.id < n) rows
    → any (λ x. x.id == n) rows ≡ false
fresh_id [] n h = refl
fresh_id (r ∷ rows) n (hr, h) = ground (arith, fresh_id rows n h)

distinct-snoc :
    (rows : List TimeEntryRecord) (r : TimeEntryRecord)
    → HasDistinctIds rows
    → any (λ x. x.id == r.id) rows ≡ false
    → HasDistinctIds (rows ++ r ∷ [])
distinct-snoc [] r h k = (refl, tt)
distinct-snoc (x ∷ rows) r (hx, h) k = (
  ground (arith, any-append (λ y. y.id == x.id) rows (r ∷ [])),
  distinct-snoc rows r h (ground arith),
)

numbered-suc :
    (rows : List TimeEntryRecord) (n : ℕ) → All (λ r. r.id < n) rows → All (λ r. r.id < n + 1) rows
numbered-suc [] n h = tt
numbered-suc (r ∷ rows) n (hr, h) = (omega arith, numbered-suc rows n h)

-- Only the key of the row's own employee is touched by an insert.
open_count-snoc :
    (rows : List TimeEntryRecord) (r : TimeEntryRecord) (e : ℕ)
    → (r.employee_id ≡ e) ⊎ (open_count e (rows ++ r ∷ []) ≡ open_count e rows)
open_count-snoc rows r e =
    let split = sum_where-append (is_open_of e) (λ _. 1) rows (r ∷ []) in ground (arith, split)

-- An insert of a sound row keeps the table in order, whether the index lets it through or not.
pub create_entry-IsTimesheet :
    (n : NewEntry) (db : Db)
    → is_open n.status ≡ is_none n.time_out
    → EndsAfter n.time_in n.time_out
    → IsTimesheet db
    → IsTimesheet (create_entry n db).1
unfolding create_entry
create_entry-IsTimesheet n db derived strict h =
    let row = new_entry n db.next_id in
    elim (Bool-cases (violates_one_open n.employee_id (db.entries ++ row ∷ []))) [
      | inl refused ↦ rw refused h
      | inr fits ↦ rw fits (record {
        sound =
            All-snoc IsSound db.entries row h.sound (record { derived = derived; strict = strict });
        one_open = λ e. elim (open_count-snoc db.entries row e) [
          | inl same ↦ rw (sym same) (ground arith)
          | inr kept ↦ rw kept (h.one_open e)
        ];
        distinct =
            distinct-snoc db.entries row h.distinct (fresh_id db.entries db.next_id h.numbered);
        numbered =
            All-snoc (λ r. r.id < db.next_id + 1) db.entries row
              (numbered-suc db.entries db.next_id h.numbered) (omega arith);
      })
    ]

pub find-All :
    (P : TimeEntryRecord → Type 0) (p : TimeEntryRecord → Bool) (rows : List TimeEntryRecord)
    (row : TimeEntryRecord)
    → find p rows ≡ some row
    → All P rows
    → P row
find-All P p [] row h a = absurd (ground arith)
find-All P p (x ∷ rows) row h (ax, a) = elim (Bool-cases (p x)) [
  | inl here ↦ let same : row ≡ x = ground arith in rw same ax
  | inr there ↦ find-All P p rows row (ground arith) a
]

module _ (id : ℕ) (patch : TimeEntryRecord → TimeEntryRecord) where
  All-update_first :
      (P : TimeEntryRecord → Type 0) (rows : List TimeEntryRecord) (row : TimeEntryRecord)
      → find (is_row id) rows ≡ some row
      → All P rows
      → P (patch row)
      → All P (update_first (is_row id) patch rows)
  All-update_first P [] row h a k = tt
  All-update_first P (x ∷ rows) row h (ax, a) k = elim (Bool-cases (is_row id x)) [
    | inl here ↦ let same : x ≡ row = ground arith in rw (here, same) (k, a)
    | inr there ↦ rw there (ax, All-update_first P rows row (ground arith) a k)
  ]

  any-update_first :
      (n : ℕ) (rows : List TimeEntryRecord)
      → ((x : TimeEntryRecord) → (patch x).id ≡ x.id)
      → any (λ x. x.id == n) (update_first (is_row id) patch rows) ≡ any (λ x. x.id == n) rows
  any-update_first n [] k = refl
  any-update_first n (x ∷ rows) k = ground (arith, any-update_first n rows k, k x)

  distinct-update_first :
      (rows : List TimeEntryRecord)
      → ((x : TimeEntryRecord) → (patch x).id ≡ x.id)
      → HasDistinctIds rows
      → HasDistinctIds (update_first (is_row id) patch rows)
  distinct-update_first [] k h = tt
  distinct-update_first (x ∷ rows) k (hx, h) = elim (Bool-cases (is_row id x)) [
    | inl here ↦ rw (here, k x) (hx, h)
    | inr there ↦ rw (there, any-update_first x.id rows k) (hx, distinct-update_first rows k h)
  ]

  open_count-update_first :
      (rows : List TimeEntryRecord) (row : TimeEntryRecord) (e : ℕ)
      → find (is_row id) rows ≡ some row
      → (patch row).employee_id ≡ row.employee_id
      → (row.employee_id ≡ e)
        ⊎ (open_count e (update_first (is_row id) patch rows) ≡ open_count e rows)
  open_count-update_first rows row e h same =
      let moved = sum_where-update_first (is_row id) patch (is_open_of e) (λ _. 1) rows row h in
      ground (arith, moved)

  -- A table in order stays in order when a row is replaced by a sound one, as long as the row's
  -- employee still has one open row at most.
  pub replaced-IsTimesheet :
      (db : Db) (row : TimeEntryRecord)
      → find (is_row id) db.entries ≡ some row
      → IsSound (patch row)
      → ((x : TimeEntryRecord) → (patch x).id ≡ x.id)
      → ((x : TimeEntryRecord) → (patch x).employee_id ≡ x.employee_id)
      → open_count row.employee_id (update_first (is_row id) patch db.entries) ≤ 1
      → IsTimesheet db
      → IsTimesheet (record db { entries = update_first (is_row id) patch db.entries })
  replaced-IsTimesheet db row found good same_id same_employee fits h = record {
    sound = All-update_first IsSound db.entries row found h.sound good;
    one_open = λ e. elim (open_count-update_first db.entries row e found (same_employee row)) [
      | inl same ↦ rw (sym same) fits
      | inr kept ↦ rw kept (h.one_open e)
    ];
    distinct = distinct-update_first db.entries same_id h.distinct;
    numbered =
        All-update_first (λ r. r.id < db.next_id) db.entries row found h.numbered
          (rw (same_id row)
            (find-All (λ r. r.id < db.next_id) (is_row id) db.entries row found h.numbered));
  }

  -- An update that moves a row to a sound one keeps the table in order, whether the index lets it
  -- through or not.
  pub update_entry-IsTimesheet :
      (events : List EntryEvent) (db : Db)
      → ((row : TimeEntryRecord) → find_by_id id db.entries ≡ some row → IsSound (patch row))
      → ((x : TimeEntryRecord) → (patch x).id ≡ x.id)
      → ((x : TimeEntryRecord) → (patch x).employee_id ≡ x.employee_id)
      → IsTimesheet db
      → IsTimesheet (update_entry id patch events db).1
  unfolding update_entry find_by_id
  update_entry-IsTimesheet events db good same_id same_employee h =
      elim (Option-cases (find (is_row id) db.entries)) [
        | inl missing ↦ rw (update_entry, find_by_id, missing) h
        | inr (row, found) ↦
            elim (Bool-cases
              (violates_one_open row.employee_id (update_first (is_row id) patch db.entries))) [
                | inl refused ↦ rw (update_entry, find_by_id, found, refused) h
                | inr fits ↦
                    let kept =
                      replaced-IsTimesheet db row found (good row found) same_id same_employee
                        (ground arith) h in
                    rw (update_entry, find_by_id, found, fits)
                      (record {
                        sound = kept.sound;
                        one_open = kept.one_open;
                        distinct = kept.distinct;
                        numbered = kept.numbered;
                      })
              ]
      ]

  -- A replacement that does not open the row adds no open row.
  pub open_count-closed :
      (rows : List TimeEntryRecord) (row : TimeEntryRecord)
      → find (is_row id) rows ≡ some row
      → is_open_of row.employee_id (patch row) ≡ false
      → open_count row.employee_id (update_first (is_row id) patch rows)
        ≤ open_count row.employee_id rows
  open_count-closed rows row h shut =
      let moved =
        sum_where-update_first (is_row id) patch (is_open_of row.employee_id) (λ _. 1) rows row h in
      ground (arith, moved)
