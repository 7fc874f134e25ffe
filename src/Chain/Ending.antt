-- ===== src/Chain/Ending.antt =====
-- `applyStepChanges` of approval-chains/: what ending rows and inserting others makes of the table.
use asima_backend.Base.{
  ℕ, ◌+◌, ◌≤◌, ◌<◌, ◌≡◌, refl, sym, ◌∙◌, bind-ok, Bool, false, ◌&&◌, List, [], ◌∷◌, ◌++◌, Option,
  ok, arith, All, All-map, All-snoc, All-update_where, Member, HasDistinct, HasDistinct-snoc,
  HasDistinct-update_where, unused_key, sum_where, sum_where-append, sum_where-update_where,
  sum_where-without_rows, update_where, ltb, ◌==◌,
}
use asima_backend.Chain.Record.{ApprovalChain, ChainInsert, StepChanges}
use asima_backend.Chain.Steps.{ids_of}
use asima_backend.Chain.Service.{
  is_active_at, active_count, ended, is_listed, chain_row, insert_chain, insert_all,
  apply_step_changes,
}
use asima_backend.Chain.Table.{IsAssigned, total}
use asima_backend.Db.{Db}

abbrev pub added : ℕ → List ChainInsert → List ApprovalChain → List ApprovalChain
added n [] rows = rows
added n (i ∷ inserts) rows = added (n + 1) inserts (rows ++ chain_row i n ∷ [])

abbrev pub next_after : ℕ → List ChainInsert → ℕ
next_after n [] = n
next_after n (i ∷ inserts) = next_after (n + 1) inserts

abbrev pub is_for : ℕ → ℕ → ChainInsert → Bool
is_for e s i = i.employee_id == e && i.step == s

-- The state after the changes.
abbrev pub with_changes : (now : ℕ) → StepChanges → Option ℕ → Db → Db
with_changes now changes actor db = record db {
  next_id = next_after db.next_id changes.inserts;
  chains =
      added db.next_id changes.inserts
        (update_where (is_listed changes.ends) (ended now actor) db.chains);
}

added_sum :
    (e s : ℕ) (g : ApprovalChain → ℕ) (g' : ChainInsert → ℕ)
    → ((i : ChainInsert) (n : ℕ) → g (chain_row i n) ≡ g' i)
    → (n : ℕ) (inserts : List ChainInsert) (rows : List ApprovalChain)
    → sum_where (is_active_at e s) g (added n inserts rows)
      ≡ sum_where (is_active_at e s) g rows + sum_where (is_for e s) g' inserts
added_sum e s g g' same n [] rows = omega arith
added_sum e s g g' same n (i ∷ inserts) rows =
    let rest = added_sum e s g g' same (n + 1) inserts (rows ++ chain_row i n ∷ []) in
    let split = sum_where-append (is_active_at e s) g rows (chain_row i n ∷ []) in
    ground (arith, same i n)

insert_chain_call :
    (i : ChainInsert) (db : Db)
    → active_count i.employee_id i.step (db.chains ++ chain_row i db.next_id ∷ []) ≤ 1
    → (i.approver_id == i.employee_id) ≡ false
    → insert_chain i db ≡ (
      ok tt,
      record db { next_id = db.next_id + 1; chains = db.chains ++ chain_row i db.next_id ∷ [] },
    )
unfolding insert_chain
insert_chain_call i db one other =
    let fits : ltb 1 (active_count i.employee_id i.step (db.chains ++ chain_row i db.next_id ∷ []))
        ≡ false =
      ground arith in
    rw (other, fits) refl

pub insert_all_call :
    (inserts : List ChainInsert) (db : Db)
    → ((e s : ℕ) → active_count e s (added db.next_id inserts db.chains) ≤ 1)
    → All (λ i. (i.approver_id == i.employee_id) ≡ false) inserts
    → insert_all inserts db ≡ (
      ok tt,
      record db {
        next_id = next_after db.next_id inserts;
        chains = added db.next_id inserts db.chains;
      },
    )
unfolding insert_all
insert_all_call [] db one others = refl
insert_all_call (i ∷ inserts) db one (other, others) =
    let db1 : Db = record db {
      next_id = db.next_id + 1;
      chains = db.chains ++ chain_row i db.next_id ∷ [];
    } in
    let grows =
      added_sum i.employee_id i.step (λ _. 1) (λ _. 1) (λ j n. refl) (db.next_id + 1) inserts
        db1.chains in
    let one_now = one i.employee_id i.step in
    bind-ok (insert_chain i) (λ _. insert_all inserts) db db1 tt
      (insert_chain_call i db (omega arith) other)
    ∙ insert_all_call inserts db1 one others

module _ (now : ℕ) (changes : StepChanges) (actor : Option ℕ) (db : Db)
    (h : IsAssigned db.next_id db.chains) (gone : List ApprovalChain)
    (ends : ids_of gone ≡ changes.ends) (inside : All (λ r. Member r db.chains) gone)
    (apart : HasDistinct (λ r. r.id) gone) where
  changed_sum :
      (e s : ℕ) (g : ApprovalChain → ℕ) (g' : ChainInsert → ℕ)
      → ((i : ChainInsert) (n : ℕ) → g (chain_row i n) ≡ g' i)
      → sum_where (is_active_at e s) g (with_changes now changes actor db).chains
          + sum_where (is_active_at e s) g gone
        ≡ sum_where (is_active_at e s) g db.chains + sum_where (is_for e s) g' changes.inserts
  changed_sum e s g g' same =
      let left =
        sum_where-without_rows (λ r. r.id) (is_active_at e s) g db.chains gone h.distinct apart
          inside in
      let shut =
        sum_where-update_where (is_listed (ids_of gone)) (is_active_at e s) (ended now actor) g
          db.chains (λ r. ground arith) in
      let more =
        added_sum e s g g' same db.next_id changes.inserts
          (update_where (is_listed (ids_of gone)) (ended now actor) db.chains) in
      rw (sym ends) (ground arith)

  -- The number of active rows of a step and the approvers that they name.
  pub changed_counts :
      (e s : ℕ)
      → (active_count e s (with_changes now changes actor db).chains + active_count e s gone
          ≡ active_count e s db.chains + sum_where (is_for e s) (λ _. 1) changes.inserts)
        × (total e s (with_changes now changes actor db).chains + total e s gone
            ≡ total e s db.chains + sum_where (is_for e s) (λ i. i.approver_id) changes.inserts)
  changed_counts e s = (
    changed_sum e s (λ _. 1) (λ _. 1) (λ i n. refl),
    changed_sum e s (λ r. r.approver_id) (λ i. i.approver_id) (λ i n. refl),
  )

added-All :
    (P : ApprovalChain → Type 0) (n : ℕ) (inserts : List ChainInsert) (rows : List ApprovalChain)
    → All P rows
    → All (λ i. (m : ℕ) → P (chain_row i m)) inserts
    → All P (added n inserts rows)
added-All P n [] rows a new = a
added-All P n (i ∷ inserts) rows a (new_i, new) =
    added-All P (n + 1) inserts (rows ++ chain_row i n ∷ [])
      (All-snoc P rows (chain_row i n) a (new_i n)) new

added_ids :
    (n : ℕ) (inserts : List ChainInsert) (rows : List ApprovalChain)
    → HasDistinct (λ r. r.id) rows
    → All (λ r. r.id < n) rows
    → HasDistinct (λ r. r.id) (added n inserts rows)
      × All (λ r. r.id < next_after n inserts) (added n inserts rows)
added_ids n [] rows d below = (d, below)
added_ids n (i ∷ inserts) rows d below =
    added_ids (n + 1) inserts (rows ++ chain_row i n ∷ [])
      (HasDistinct-snoc (λ r. r.id) rows (chain_row i n) d (unused_key (λ r. r.id) rows n below))
      (All-snoc (λ r. r.id < n + 1) rows (chain_row i n)
        (All-map (λ r. r.id < n) (λ r. r.id < n + 1) rows (λ r low. omega arith) below)
        (omega arith))

-- The changes are made, and leave the table in order, where they leave one row at most for each
-- step, no second step without a first, and name nobody as their own approver.
pub apply_call :
    (now : ℕ) (changes : StepChanges) (actor : Option ℕ) (db : Db)
    → IsAssigned db.next_id db.chains
    → ((e s : ℕ) → active_count e s (with_changes now changes actor db).chains ≤ 1)
    → ((e : ℕ)
        → active_count e 1 (with_changes now changes actor db).chains ≡ 0
        → active_count e 2 (with_changes now changes actor db).chains ≡ 0)
    → All (λ i. (i.approver_id == i.employee_id) ≡ false) changes.inserts
    → (apply_step_changes now changes actor db ≡ (ok tt, with_changes now changes actor db))
      × IsAssigned
          (with_changes now changes actor db).next_id
          (with_changes now changes actor db).chains
unfolding apply_step_changes
apply_call now changes actor db h one first others =
    let shut = update_where (is_listed changes.ends) (ended now actor) db.chains in
    let db1 : Db = record db { chains = shut } in
    let inserted = insert_all_call changes.inserts db1 one others in
    let kept =
      HasDistinct-update_where (λ r. r.id) (is_listed changes.ends) (ended now actor) db.chains
        (λ r. refl) h.distinct in
    let below =
      All-update_where (λ r. r.id < db.next_id) (is_listed changes.ends) (ended now actor) db.chains
        (λ r low. low) h.numbered in
    let ids = added_ids db.next_id changes.inserts shut kept below in
    (
      ground arith,
      record {
        one_each = one;
        l1_first = first;
        others_approve =
            added-All (λ r. (r.approver_id == r.employee_id) ≡ false) db.next_id changes.inserts
              shut
              (All-update_where (λ r. (r.approver_id == r.employee_id) ≡ false)
                (is_listed changes.ends) (ended now actor) db.chains (λ r other. other)
                h.others_approve)
              (All-map (λ i. (i.approver_id == i.employee_id) ≡ false)
                (λ i.
                  (m : ℕ) → ((chain_row i m).approver_id == (chain_row i m).employee_id) ≡ false)
                changes.inserts (λ i other m. other) others);
        distinct = ids.0;
        numbered = ids.1;
      },
    )
