-- ===== src/Chain/Requested.antt =====
-- The outcomes of `setChain` of approval-chains/approval-chains.service.ts.
use asima_backend.Base.{
  ℕ, ◌≡◌, refl, ◌⊎◌, inl, inr, false, ◌&&◌, ◌||◌, Option, none, some, ok, err, Field, not_found,
  unprocessable, approver_id, l1_approver_id, arith, All, All-append, Change, keep, clear, put,
  merge, is_none, is_some, ◌==◌, Bool-cases, Option-cases,
}
use asima_backend.Chain.Record.{ApprovalChain, SetChainInput}
use asima_backend.Chain.Repository.{find_active_for_employee, at_step, get_active}
use asima_backend.Chain.Steps.{inserted, is_change, compute_step_changes}
use asima_backend.Chain.Service.{
  assert_given, assert_user_active, check_active, set_chain, apply_step_changes,
}
use asima_backend.Chain.Table.{IsAssigned, approver_at}
use asima_backend.Chain.Ending.{with_changes, apply_call}
use asima_backend.Chain.Setting.{is_self}
use asima_backend.Chain.SetChain.{
  changes, written_balance, unwritten_balance, at_l1, at_l2, at_others, one_after, first_after,
}
use asima_backend.Db.{Db, Instant, find_user}

pub assert_user_active_cases :
    (id : ℕ) (db : Db)
    → (assert_user_active id db ≡ (ok tt, db))
      ⊎ (assert_user_active id db ≡ (err (unprocessable approver_id), db))
unfolding assert_user_active check_active
assert_user_active_cases id db = elim (Option-cases (find_user id db)) [
  | inl missing ↦ inr (ground arith)
  | inr (user, found) ↦ elim (Bool-cases user.is_active) [
    | inl active ↦ inl (ground arith)
    | inr inactive ↦ inr (ground arith)
  ]
]

assert_given_cases :
    (change : Change ℕ) (e : ℕ) (db : Db)
    → ((assert_given change e db ≡ (ok tt, db)) × (is_self change e ≡ false))
      ⊎ (assert_given change e db ≡ (err (unprocessable approver_id), db))
unfolding assert_given
assert_given_cases keep e db = inl (refl, refl)
assert_given_cases clear e db = inl (refl, refl)
assert_given_cases (put a) e db = elim (Bool-cases (a == e)) [
  | inl self ↦ inr (ground arith)
  | inr other ↦ elim (assert_user_active_cases a db) [
    | inl active ↦ inl (ground arith, other)
    | inr inactive ↦ inr (ground arith)
  ]
]

inserted_others :
    (e s : ℕ) (change : Change ℕ) (current : Option ApprovalChain) (actor : Option ℕ)
    → is_self change e ≡ false
    → All (λ i. (i.approver_id == i.employee_id) ≡ false) (inserted e s change current actor)
inserted_others e s keep current actor other = tt
inserted_others e s clear current actor other = tt
inserted_others e s (put a) none actor other = (other, tt)
inserted_others e s (put a) (some r) actor other = elim (Bool-cases (r.approver_id == a)) [
  | inl same ↦ rw same tt
  | inr changed ↦ rw changed (other, tt)
]

-- The state has the requested chain, and differs in nothing else that approves.
pub record IsRequested (e : ℕ) (input : SetChainInput) (before after : Db) : Type 0 where
  pub assigned : IsAssigned after.next_id after.chains
  pub l1 : approver_at e 1 after.chains ≡ merge input.l1_approver_id (approver_at e 1 before.chains)
  pub l2 : approver_at e 2 after.chains ≡ merge input.l2_approver_id (approver_at e 2 before.chains)
  pub others :
      (e' s' : ℕ)
      → (e' == e && (s' == 1 || s' == 2)) ≡ false
      → approver_at e' s' after.chains ≡ approver_at e' s' before.chains

module _ (i : Instant) (e : ℕ) (input : SetChainInput) (actor : Option ℕ) (db : Db)
    (h : IsAssigned db.next_id db.chains)
    (allowed : (is_some (merge input.l2_approver_id (approver_at e 2 db.chains))
        && is_none (merge input.l1_approver_id (approver_at e 1 db.chains)))
      ≡ false)
    (other1 : is_self input.l1_approver_id e ≡ false)
    (other2 : is_self input.l2_approver_id e ≡ false) where
  writes :
      (apply_step_changes i.now (changes i e input actor db h) actor db
        ≡ (ok tt, with_changes i.now (changes i e input actor db h) actor db))
      × IsRequested e input db (with_changes i.now (changes i e input actor db h) actor db)
  writes =
      let after = with_changes i.now (changes i e input actor db h) actor db in
      let balance = written_balance i e input actor db h in
      let call =
        apply_call i.now (changes i e input actor db h) actor db h
          (one_after i e input actor db h after.chains balance)
          (first_after i e input actor db h after.chains balance allowed)
          (All-append (λ x. (x.approver_id == x.employee_id) ≡ false)
            (inserted e 1 input.l1_approver_id (at_step 1 (find_active_for_employee e db.chains))
              actor)
            (inserted e 2 input.l2_approver_id (at_step 2 (find_active_for_employee e db.chains))
              actor)
            (inserted_others e 1 input.l1_approver_id
              (at_step 1 (find_active_for_employee e db.chains)) actor other1)
            (inserted_others e 2 input.l2_approver_id
              (at_step 2 (find_active_for_employee e db.chains)) actor other2)) in
      (
        call.0,
        record {
          assigned = call.1;
          l1 = (at_l1 i e input actor db h after.chains balance).0;
          l2 = (at_l2 i e input actor db h after.chains balance).0;
          others =
              λ e' s' other. (at_others i e input actor db h after.chains balance e' s' other).1;
        },
      )

  keeps : is_change (changes i e input actor db h) ≡ false → IsRequested e input db db
  keeps idle =
      let balance = unwritten_balance i e input actor db h idle in
      record {
        assigned = h;
        l1 = (at_l1 i e input actor db h db.chains balance).0;
        l2 = (at_l2 i e input actor db h db.chains balance).0;
        others = λ e' s' other. refl;
      }

-- Where the chains are in order (`IsAssigned`), `setChain` sets or clears exactly the steps that it is asked to,
-- leaves every other step of every employee, keeps the chains in order, and returns the active
-- chain; or it answers 404 or 422 and changes nothing. It never meets the unique index or the check
-- of the table.
pub set_chain-IsRequested :
    (i : Instant) (e : ℕ) (input : SetChainInput) (actor : Option ℕ) (db : Db)
    → IsAssigned db.next_id db.chains
    → (set_chain i e input actor db ≡ (err not_found, db))
      ⊎ ((f : Field) × (set_chain i e input actor db ≡ (err (unprocessable f), db)))
      ⊎ ((db' : Db) × (set_chain i e input actor db ≡ (ok (get_active e db'.chains), db'))
          × IsRequested e input db db')
unfolding set_chain compute_step_changes
set_chain-IsRequested i e input actor db h = elim (Option-cases (find_user e db)) [
  | inl missing ↦ inl (ground arith)
  | inr (user, found) ↦ elim (assert_given_cases input.l1_approver_id e db) [
    | inr bad1 ↦ inr (inl (approver_id, ground arith))
    | inl (good1, other1) ↦ elim (assert_given_cases input.l2_approver_id e db) [
      | inr bad2 ↦ inr (inl (approver_id, ground arith))
      | inl (good2, other2) ↦
          elim (Bool-cases (
            is_some (merge input.l2_approver_id (approver_at e 2 db.chains))
            && is_none (merge input.l1_approver_id (approver_at e 1 db.chains)))) [
              | inl orphan ↦ inr (inl (l1_approver_id, ground arith))
              | inr allowed ↦ elim (Bool-cases (is_change (changes i e input actor db h))) [
                | inl changed ↦
                    let (call, set) = writes i e input actor db h allowed other1 other2 in
                    inr (
                      inr (
                        with_changes i.now (changes i e input actor db h) actor db,
                        ground arith,
                        set,
                      ))
                | inr idle ↦
                    inr (
                      inr (db, ground arith, keeps i e input actor db h allowed other1 other2 idle))
              ]
            ]
    ]
  ]
]
