-- ===== src/Chain/Moving.antt =====
-- `bulkReassign` of approval-chains/approval-chains.service.ts.
use asima_backend.Base.{
  ℕ, ◌+◌, ◌≡◌, refl, sym, ◌∙◌, ◌⊎◌, inl, inr, Bool, true, false, ◌&&◌, not, List, [], ◌∷◌, map,
  Option, some, ok, err, Field, unprocessable, approver_id, to_approver_id, arith, All, All-map,
  Member, HasDistinct-filter, filter, filter-Member, sum_where, sum_where-filter, sum_where-both,
  sum_where-only, length, same_option, is_none, is_empty, ◌==◌, if◌then◌else◌, Bool-cases,
  Option-cases,
}
use asima_backend.Chain.Record.{ApprovalChain, StepChanges, BulkReassignResult}
use asima_backend.Chain.Repository.{find_active_for_employee, find_active_by_approver, at_step}
use asima_backend.Chain.Steps.{ids_of, is_change, is_moved, moved, reassign_each, skipped_employees}
use asima_backend.Chain.Service.{is_active_at, active_count, apply_step_changes, bulk_reassign}
use asima_backend.Chain.Table.{
  IsAssigned, approver_at, approver_at-counted, total, at_step-some, at_step-none,
}
use asima_backend.Chain.Ending.{is_for, with_changes, changed_counts, apply_call}
use asima_backend.Chain.Requested.{assert_user_active_cases}
use asima_backend.Db.{Db, Instant}

abbrev pub is_reassigned : (from_approver to_approver : ℕ) → ApprovalChain → Bool
is_reassigned a b r = (r.approver_id == a && is_none r.ended_at) && is_moved b r

reassign_shape :
    (a b : ℕ) (actor : Option ℕ) (rows : List ApprovalChain)
    → ((reassign_each b actor (find_active_by_approver a rows)).ends
        ≡ ids_of (filter (is_reassigned a b) rows))
      × ((reassign_each b actor (find_active_by_approver a rows)).inserts
          ≡ map (moved b actor) (filter (is_reassigned a b) rows))
unfolding reassign_each find_active_by_approver
reassign_shape a b actor [] = (refl, refl)
reassign_shape a b actor (r ∷ rows) =
    let rest = reassign_shape a b actor rows in
    elim (Bool-cases (r.approver_id == a && is_none r.ended_at)) [
      | inr other ↦ ground arith
      | inl active ↦ elim (Bool-cases (is_moved b r)) [
        | inl moves ↦ ground arith
        | inr stays ↦ ground arith
      ]
    ]

moved_sums :
    (b e s : ℕ) (actor : Option ℕ) (rows : List ApprovalChain)
    → All (λ r. is_none r.ended_at ≡ true) rows
    → (sum_where (is_for e s) (λ _. 1) (map (moved b actor) rows) ≡ active_count e s rows)
      × (sum_where (is_for e s) (λ i. i.approver_id) (map (moved b actor) rows)
          ≡ sum_where (is_active_at e s) (λ _. b) rows)
moved_sums b e s actor [] a = (refl, refl)
moved_sums b e s actor (r ∷ rows) (ar, a) = ground (arith, moved_sums b e s actor rows a)

moved_others :
    (b : ℕ) (actor : Option ℕ) (rows : List ApprovalChain)
    → All (λ r. is_moved b r ≡ true) rows
    → All (λ i. (i.approver_id == i.employee_id) ≡ false) (map (moved b actor) rows)
moved_others b actor [] a = tt
moved_others b actor (r ∷ rows) (ar, a) = (ground arith, moved_others b actor rows a)

nothing_moved :
    (b : ℕ) (actor : Option ℕ) (rows : List ApprovalChain)
    → is_empty (map (moved b actor) rows) ≡ true
    → rows ≡ []
nothing_moved b actor [] h = refl
nothing_moved b actor (r ∷ rows) h = absurd (ground arith)

module _ (i : Instant) (a b : ℕ) (actor : Option ℕ) (db : Db)
    (h : IsAssigned db.next_id db.chains) where
  abbrev gone : List ApprovalChain
  gone = filter (is_reassigned a b) db.chains

  abbrev changes : StepChanges
  changes = reassign_each b actor (find_active_by_approver a db.chains)

  inside : All (λ r. (is_reassigned a b r ≡ true) × Member r db.chains) gone
  inside = filter-Member (is_reassigned a b) db.chains

  IsMoved : List ApprovalChain → Type 0
  IsMoved rows =
      (e s : ℕ)
      → (active_count e s rows ≡ active_count e s db.chains)
        × (total e s rows + total e s gone
            ≡ total e s db.chains + sum_where (is_active_at e s) (λ _. b) gone)

  written_moves : IsMoved (with_changes i.now changes actor db).chains
  unfolding IsMoved
  written_moves e s =
      let (ends, inserts) = reassign_shape a b actor db.chains in
      let (counts, totals) =
        changed_counts i.now changes actor db h gone (sym ends)
          (All-map (λ r. (is_reassigned a b r ≡ true) × Member r db.chains)
            (λ r. Member r db.chains) gone (λ r x. x.1) inside)
          (HasDistinct-filter (λ r. r.id) (is_reassigned a b) db.chains h.distinct) e s in
      let (new_counts, new_totals) = moved_sums b e s actor gone (
        All-map (λ r. (is_reassigned a b r ≡ true) × Member r db.chains)
          (λ r. is_none r.ended_at ≡ true) gone (λ r x. ground arith) inside) in
      let these_counts : sum_where (is_for e s) (λ _. 1) changes.inserts ≡ active_count e s gone =
        rw inserts new_counts in
      let these_totals : sum_where (is_for e s) (λ x. x.approver_id) changes.inserts
          ≡ sum_where (is_active_at e s) (λ _. b) gone =
        rw inserts new_totals in
      (omega arith, omega arith)

  unwritten_moves : is_change changes ≡ false → IsMoved db.chains
  unfolding IsMoved
  unwritten_moves idle e s =
      let (ends, inserts) = reassign_shape a b actor db.chains in
      let no_inserts : is_empty (map (moved b actor) gone) ≡ true =
        rw (sym inserts) (ground arith) in
      let no_rows : gone ≡ [] = nothing_moved b actor gone no_inserts in rw no_rows (refl, refl)

  abbrev replaced : ℕ → Option ℕ → Option ℕ
  replaced e now = if same_option now (some a) && not (e == b) then some b else now

  approver_moved :
      (rows : List ApprovalChain)
      → IsMoved rows
      → (e s : ℕ) → approver_at e s rows ≡ replaced e (approver_at e s db.chains)
  unfolding IsMoved
  approver_moved rows balance e s =
      let (count, sums) = balance e s in
      let one = h.one_each e s in
      let after = approver_at-counted e s rows (omega arith) in
      let before = approver_at-counted e s db.chains one in
      elim (Option-cases (at_step s (find_active_for_employee e db.chains))) [
        | inl nothing ↦ let zero = at_step-none e s db.chains nothing in ground arith
        | inr (r, found) ↦
            let (on, there) = at_step-some e s db.chains r found in
            let only =
              sum_where-only (is_active_at e s) (λ x. x.approver_id) db.chains r one there on in
            let lost =
              sum_where-filter (is_reassigned a b) (is_active_at e s) (λ x. x.approver_id)
                db.chains in
            let won = sum_where-filter (is_reassigned a b) (is_active_at e s) (λ _. b) db.chains in
            let lost_one =
              sum_where-both (is_reassigned a b) (is_active_at e s) (λ x. x.approver_id) db.chains r
                one there on in
            let won_one =
              sum_where-both (is_reassigned a b) (is_active_at e s) (λ _. b) db.chains r one there
                on in
            ground arith
      ]

  reassigns :
      (apply_step_changes i.now changes actor db ≡ (ok tt, with_changes i.now changes actor db))
      × IsAssigned
          (with_changes i.now changes actor db).next_id
          (with_changes i.now changes actor db).chains
  unfolding IsMoved
  reassigns =
      let (ends, inserts) = reassign_shape a b actor db.chains in
      apply_call i.now changes actor db h
        (λ e s. let one = h.one_each e s in let (count, sums) = written_moves e s in omega arith)
        (λ e none_first.
          let first = h.l1_first e in
          let (count1, sums1) = written_moves e 1 in
          let (count2, sums2) = written_moves e 2 in count2 ∙ first (sym count1 ∙ none_first))
        (rw inserts (
          moved_others b actor gone (
            All-map (λ r. (is_reassigned a b r ≡ true) × Member r db.chains)
              (λ r. is_moved b r ≡ true) gone (λ r x. ground arith) inside)))

  -- Where the chains are in order (`IsAssigned`), `bulkReassign` puts the new approver in the place of the old one
  -- at every step of every employee but the new approver, leaves every other step, and keeps the
  -- chains in order; or it answers 422 and changes nothing. It never meets the unique index or the
  -- check of the table.
  pub bulk_reassign-replaces :
      ((f : Field) × (bulk_reassign i a b actor db ≡ (err (unprocessable f), db)))
      ⊎ ((result : BulkReassignResult) × (db' : Db) × (bulk_reassign i a b actor db
            ≡ (ok result, db'))
          × IsAssigned db'.next_id db'.chains
          × ((e s : ℕ)
              → approver_at e s db'.chains ≡ (
                  if same_option (approver_at e s db.chains) (some a) && not (e == b)
                  then some b
                  else approver_at e s db.chains)))
  unfolding bulk_reassign
  bulk_reassign-replaces = elim (Bool-cases (a == b)) [
    | inl same ↦ inl (to_approver_id, ground arith)
    | inr differ ↦ elim (assert_user_active_cases b db) [
      | inr inactive ↦ inl (approver_id, ground arith)
      | inl active ↦
          let result : BulkReassignResult = record {
            reassigned = length changes.inserts;
            skipped = skipped_employees b (find_active_by_approver a db.chains);
          } in
          elim (Bool-cases (is_change changes)) [
            | inl changed ↦
                let (call, whole) = reassigns in
                let after = with_changes i.now changes actor db in
                inr (result, after, ground arith, whole, approver_moved after.chains written_moves)
            | inr idle ↦
                inr (result, db, ground arith, h, approver_moved db.chains (unwritten_moves idle))
          ]
    ]
  ]
