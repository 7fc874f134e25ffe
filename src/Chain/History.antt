-- ===== src/Chain/History.antt =====
-- Any sequence of the calls of approval-chains/approval-chains.service.ts on single employees, and
-- of its bulk reassignments.
use asima_backend.Base.{ℕ, ap, List, [], ◌∷◌, Option, inl, inr, Result, Error}
use asima_backend.Chain.Record.{SetChainInput}
use asima_backend.Chain.Service.{set_chain, end_step, bulk_reassign}
use asima_backend.Chain.Table.{IsAssigned}
use asima_backend.Chain.Requested.{set_chain-IsRequested}
use asima_backend.Chain.EndStep.{end_step-empties}
use asima_backend.Chain.Moving.{bulk_reassign-replaces}
use asima_backend.Db.{Db, Instant}

pub data Call : Type 0 where
  sets : Instant → ℕ → SetChainInput → Option ℕ → Call
  ends : Instant → (employee s : ℕ) → Option ℕ → Call
  reassigns : Instant → (from_approver to_approver : ℕ) → Option ℕ → Call

-- The state after a call, whether it returned or threw.
unfoldable pub serve : Db → Call → Db
serve db (sets i e input actor) = (set_chain i e input actor db).1
serve db (ends i e s actor) = (end_step i e s actor db).1
serve db (reassigns i a b actor) = (bulk_reassign i a b actor db).1

unfoldable pub serve_all : Db → List Call → Db
unfolding serve
serve_all db [] = db
serve_all db (call ∷ calls) = serve_all (serve db call) calls

abbrev after_call : {A : Type 0} → Result Error A × Db → Db
after_call x = x.1

serve-IsAssigned :
    (db : Db) (call : Call)
    → IsAssigned db.next_id db.chains
    → IsAssigned (serve db call).next_id (serve db call).chains
unfolding serve
serve-IsAssigned db (sets i e input actor) h = elim (set_chain-IsRequested i e input actor db h) [
  | inl missing ↦ rw (ap after_call missing) h
  | inr (inl (f, refused)) ↦ rw (ap after_call refused) h
  | inr (inr (db', done, set)) ↦ rw (ap after_call done) set.assigned
]
serve-IsAssigned db (ends i e s actor) h = elim (end_step-empties i e s actor db h) [
  | inl missing ↦ rw (ap after_call missing) h
  | inr (inl (f, refused)) ↦ rw (ap after_call refused) h
  | inr (inr (db', done, whole, effect)) ↦ rw (ap after_call done) whole
]
serve-IsAssigned db (reassigns i a b actor) h = elim (bulk_reassign-replaces i a b actor db h) [
  | inl (f, refused) ↦ rw (ap after_call refused) h
  | inr (result, db', done, whole, effect) ↦ rw (ap after_call done) whole
]

-- Chains that are in order stay so, whatever chains are set, ended and reassigned, in any order, and
-- whichever of the calls fail. In order means that each step of an employee has one active approver
-- at most, nobody has a second approver without a first, nobody approves their own requests, and
-- the ids are distinct and below the next one.
pub serve_all-IsAssigned :
    (db : Db) (calls : List Call)
    → IsAssigned db.next_id db.chains
    → IsAssigned (serve_all db calls).next_id (serve_all db calls).chains
unfolding serve_all
serve_all-IsAssigned db [] h = h
serve_all-IsAssigned db (call ∷ calls) h =
    serve_all-IsAssigned (serve db call) calls (serve-IsAssigned db call h)
