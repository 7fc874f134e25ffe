-- ===== src/Chain/SetChain.antt =====
-- `setChain` of approval-chains/approval-chains.service.ts.
use asima_backend.Base.{
  ℕ, ◌+◌, ◌≤◌, ◌≡◌, refl, sym, ◌∙◌, ◌⊎◌, inl, inr, true, false, ◌&&◌, ◌||◌, List, [], ◌∷◌, ◌++◌,
  Option, arith, All, All-append, All-map, Member, Member-key_unique, HasDistinct, merge, sum_where,
  sum_where-append, is_none, is_some, is_empty, ◌==◌, Bool-cases,
}
use asima_backend.Chain.Record.{ApprovalChain, ChainInsert, SetChainInput, StepChanges}
use asima_backend.Chain.Repository.{find_active_for_employee, at_step}
use asima_backend.Chain.Steps.{superseded, inserted, ids_of, step_change, also, is_change}
use asima_backend.Chain.Service.{is_active_at, active_count}
use asima_backend.Chain.Table.{IsAssigned, approver_at, approver_at-counted, total}
use asima_backend.Chain.Ending.{is_for, with_changes, changed_counts}
use asima_backend.Chain.Setting.{step_effect, step_elsewhere, superseded-Member, superseded-cases}
use asima_backend.Db.{Db, Instant}

ids_of-append : (xs ys : List ApprovalChain) → ids_of (xs ++ ys) ≡ ids_of xs ++ ids_of ys
ids_of-append [] ys = refl
ids_of-append (x ∷ xs) ys = ground (arith, ids_of-append xs ys)

no_ids : (xs : List ApprovalChain) → is_empty (ids_of xs) ≡ true → xs ≡ []
no_ids [] h = refl
no_ids (x ∷ xs) h = absurd (ground arith)

no_elements : (xs : List ChainInsert) → is_empty xs ≡ true → xs ≡ []
no_elements [] h = refl
no_elements (x ∷ xs) h = absurd (ground arith)

module _ (i : Instant) (e : ℕ) (input : SetChainInput) (actor : Option ℕ) (db : Db)
    (h : IsAssigned db.next_id db.chains) where
  abbrev pub at : ℕ → Option ApprovalChain
  at s = at_step s (find_active_for_employee e db.chains)

  abbrev pub gone1 : List ApprovalChain
  gone1 = superseded input.l1_approver_id (at 1)

  abbrev pub gone2 : List ApprovalChain
  gone2 = superseded input.l2_approver_id (at 2)

  abbrev pub changes : StepChanges
  changes =
      also (step_change e 1 input.l1_approver_id (at 1) actor)
        (step_change e 2 input.l2_approver_id (at 2) actor)

  members1 : All (λ r. (is_active_at e 1 r ≡ true) × Member r db.chains) gone1
  members1 = superseded-Member db.next_id e 1 input.l1_approver_id actor db.chains h

  members2 : All (λ r. (is_active_at e 2 r ≡ true) × Member r db.chains) gone2
  members2 = superseded-Member db.next_id e 2 input.l2_approver_id actor db.chains h

  gone-Member : All (λ r. Member r db.chains) (gone1 ++ gone2)
  gone-Member =
      All-append (λ r. Member r db.chains) gone1 gone2
        (All-map (λ r. (is_active_at e 1 r ≡ true) × Member r db.chains) (λ r. Member r db.chains)
          gone1 (λ r x. x.1) members1)
        (All-map (λ r. (is_active_at e 2 r ≡ true) × Member r db.chains) (λ r. Member r db.chains)
          gone2 (λ r x. x.1) members2)

  two_apart :
      (xs ys : List ApprovalChain)
      → ((xs ≡ []) ⊎ ((r : ApprovalChain) × (xs ≡ r ∷ [])))
      → ((ys ≡ []) ⊎ ((r : ApprovalChain) × (ys ≡ r ∷ [])))
      → All (λ r. (is_active_at e 1 r ≡ true) × Member r db.chains) xs
      → All (λ r. (is_active_at e 2 r ≡ true) × Member r db.chains) ys
      → HasDistinct (λ r. r.id) (xs ++ ys)
  two_apart [] [] a b in1 in2 = tt
  two_apart [] (y ∷ []) a b in1 in2 = (refl, tt)
  two_apart [] (y ∷ z ∷ ys) a (inl h2) in1 in2 = absurd (ground arith)
  two_apart [] (y ∷ z ∷ ys) a (inr (r, h2)) in1 in2 = absurd (ground arith)
  two_apart (x ∷ w ∷ xs) ys (inl h1) b in1 in2 = absurd (ground arith)
  two_apart (x ∷ w ∷ xs) ys (inr (r, h1)) b in1 in2 = absurd (ground arith)
  two_apart (x ∷ []) [] a b in1 in2 = (refl, tt)
  two_apart (x ∷ []) (y ∷ z ∷ ys) a (inl h2) in1 in2 = absurd (ground arith)
  two_apart (x ∷ []) (y ∷ z ∷ ys) a (inr (r, h2)) in1 in2 = absurd (ground arith)
  two_apart (x ∷ []) (y ∷ []) a b ((on1, in1), _) ((on2, in2), _) =
      elim (Bool-cases (y.id == x.id)) [
        | inl same ↦
            let ids : x.id ≡ y.id = ground arith in
            let equal = Member-key_unique (λ r. r.id) db.chains x y h.distinct in1 in2 ids in
            absurd (ground arith)
        | inr other ↦ (ground arith, (refl, tt))
      ]

  gone_apart : HasDistinct (λ r. r.id) (gone1 ++ gone2)
  gone_apart =
      two_apart gone1 gone2 (superseded-cases input.l1_approver_id (at 1))
        (superseded-cases input.l2_approver_id (at 2)) members1 members2

  -- The table after the changes, or the same table where there are none.
  pub IsBalanced : List ApprovalChain → Type 0
  IsBalanced rows =
      (e' s' : ℕ)
      → (active_count e' s' rows + active_count e' s' (gone1 ++ gone2)
          ≡ active_count e' s' db.chains + sum_where (is_for e' s') (λ _. 1) changes.inserts)
        × (total e' s' rows + total e' s' (gone1 ++ gone2)
            ≡ total e' s' db.chains + sum_where (is_for e' s') (λ x. x.approver_id) changes.inserts)

  pub written_balance : IsBalanced (with_changes i.now changes actor db).chains
  unfolding IsBalanced
  written_balance e' s' =
      changed_counts i.now changes actor db h (gone1 ++ gone2) (ids_of-append gone1 gone2)
        gone-Member gone_apart e' s'

  pub unwritten_balance : is_change changes ≡ false → IsBalanced db.chains
  unfolding IsBalanced
  unwritten_balance idle e' s' =
      let ends = ids_of-append gone1 gone2 in
      let no_rows = no_ids (gone1 ++ gone2) (ground arith) in
      let no_inserts = no_elements changes.inserts (ground arith) in
      rw (no_rows, no_inserts) (refl, refl)

  -- The rows of the employee's two steps apart.
  split_balance :
      (rows : List ApprovalChain)
      → IsBalanced rows
      → (e' s' : ℕ)
      → let ins1 = inserted e 1 input.l1_approver_id (at 1) actor in
        let ins2 = inserted e 2 input.l2_approver_id (at 2) actor in
        (active_count e' s' rows + (active_count e' s' gone1 + active_count e' s' gone2)
          ≡ active_count e' s' db.chains
            + (sum_where (is_for e' s') (λ _. 1) ins1 + sum_where (is_for e' s') (λ _. 1) ins2))
        × (total e' s' rows + (total e' s' gone1 + total e' s' gone2)
            ≡ total e' s' db.chains
              + (sum_where (is_for e' s') (λ x. x.approver_id) ins1
                  + sum_where (is_for e' s') (λ x. x.approver_id) ins2))
  unfolding IsBalanced
  split_balance rows balance e' s' =
      let ins1 = inserted e 1 input.l1_approver_id (at 1) actor in
      let ins2 = inserted e 2 input.l2_approver_id (at 2) actor in
      let (counts, totals) = balance e' s' in
      let gone_counts = sum_where-append (is_active_at e' s') (λ _. 1) gone1 gone2 in
      let gone_totals = sum_where-append (is_active_at e' s') (λ r. r.approver_id) gone1 gone2 in
      let new_counts = sum_where-append (is_for e' s') (λ _. 1) ins1 ins2 in
      let new_totals = sum_where-append (is_for e' s') (λ r. r.approver_id) ins1 ins2 in
      (omega arith, omega arith)

  module _ (rows : List ApprovalChain) (balance : IsBalanced rows) where
    pub at_l1 :
        (approver_at e 1 rows ≡ merge input.l1_approver_id (approver_at e 1 db.chains))
        × (active_count e 1 rows ≤ 1)
    at_l1 =
        let (x, y, c, t, low, result) =
          step_effect db.next_id e 1 actor db.chains h input.l1_approver_id (at 1) refl in
        let elsewhere =
          step_elsewhere db.next_id e 2 input.l2_approver_id actor db.chains h e 1 (ground arith) in
        let (counts, totals) = split_balance rows balance e 1 in
        let count : active_count e 1 rows ≡ x = omega arith in
        let sum : total e 1 rows ≡ y = omega arith in
        let one : active_count e 1 rows ≤ 1 = omega arith in
        (approver_at-counted e 1 rows one ∙ rw (count, sum) result, one)

    pub at_l2 :
        (approver_at e 2 rows ≡ merge input.l2_approver_id (approver_at e 2 db.chains))
        × (active_count e 2 rows ≤ 1)
    at_l2 =
        let (x, y, c, t, low, result) =
          step_effect db.next_id e 2 actor db.chains h input.l2_approver_id (at 2) refl in
        let elsewhere =
          step_elsewhere db.next_id e 1 input.l1_approver_id actor db.chains h e 2 (ground arith) in
        let (counts, totals) = split_balance rows balance e 2 in
        let count : active_count e 2 rows ≡ x = omega arith in
        let sum : total e 2 rows ≡ y = omega arith in
        let one : active_count e 2 rows ≤ 1 = omega arith in
        (approver_at-counted e 2 rows one ∙ rw (count, sum) result, one)

    pub at_others :
        (e' s' : ℕ)
        → (e' == e && (s' == 1 || s' == 2)) ≡ false
        → (active_count e' s' rows ≡ active_count e' s' db.chains)
          × (approver_at e' s' rows ≡ approver_at e' s' db.chains)
    at_others e' s' other =
        let one = h.one_each e' s' in
        let away1 =
          step_elsewhere db.next_id e 1 input.l1_approver_id actor db.chains h e' s'
            (ground arith) in
        let away2 =
          step_elsewhere db.next_id e 2 input.l2_approver_id actor db.chains h e' s'
            (ground arith) in
        let (counts, totals) = split_balance rows balance e' s' in
        let count : active_count e' s' rows ≡ active_count e' s' db.chains = omega arith in
        let sum : total e' s' rows ≡ total e' s' db.chains = omega arith in
        (
          count,
          approver_at-counted e' s' rows (omega arith)
              ∙ rw (count, sum) (sym (approver_at-counted e' s' db.chains one)),
        )

    pub one_after : (e' s' : ℕ) → active_count e' s' rows ≤ 1
    one_after e' s' = elim (Bool-cases (e' == e && (s' == 1 || s' == 2))) [
      | inr other ↦ let one = h.one_each e' s' in let same = at_others e' s' other in omega arith
      | inl here ↦
          let one1 = at_l1.1 in
          let one2 = at_l2.1 in
          elim (Bool-cases (s' == 1)) [
            | inl first ↦
                let own : e' ≡ e = ground arith in
                let step1 : s' ≡ 1 = ground arith in rw (own, step1) one1
            | inr second ↦
                let own : e' ≡ e = ground arith in
                let step2 : s' ≡ 2 = ground arith in rw (own, step2) one2
          ]
    ]

    -- No second step without a first, where the resulting chain has none.
    pub first_after :
        (is_some (merge input.l2_approver_id (approver_at e 2 db.chains))
            && is_none (merge input.l1_approver_id (approver_at e 1 db.chains)))
          ≡ false
        → (e' : ℕ) → active_count e' 1 rows ≡ 0
        → active_count e' 2 rows ≡ 0
    first_after allowed e' none_first = elim (Bool-cases (e' == e)) [
      | inr other ↦
          let same1 = at_others e' 1 (ground arith) in
          let same2 = at_others e' 2 (ground arith) in
          let before = h.l1_first e' in ground (arith, before)
      | inl here ↦
          let own : e' ≡ e = ground arith in
          let none1 : active_count e 1 rows ≡ 0 = rw (sym own) none_first in
          let c1 = approver_at-counted e 1 rows at_l1.1 in
          let c2 = approver_at-counted e 2 rows at_l2.1 in
          let a1 = at_l1.0 in let a2 = at_l2.0 in rw own (ground arith)
    ]
