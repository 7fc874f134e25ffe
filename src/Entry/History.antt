-- ===== src/Entry/History.antt =====
-- Histories of calls of time-entries/time-entries.service.ts, in any order and with any arguments.
use asima_backend.Base.{ℕ, List, [], ◌∷◌, Option}
use asima_backend.Db.{Db, Instant}
use asima_backend.Entry.Service.{
  CreateEntryInput, UpdateEntryInput, CorrectionInput, punch, create, update, soft_delete,
  apply_correction,
}
use asima_backend.Entry.Invariant.{IsTimesheet}
use asima_backend.Entry.Writes.{
  punch-IsTimesheet, create-IsTimesheet, update-IsTimesheet, soft_delete-IsTimesheet,
}
use asima_backend.Entry.Applied.{apply_correction-IsTimesheet}

pub data Call : Type 0 where
  punches : Instant → (actor : ℕ) → Call
  creates : CreateEntryInput → Call
  updates : ℕ → UpdateEntryInput → Call
  deletes : (now id : ℕ) → Option ℕ → Call
  corrects : CorrectionInput → Call

-- The state after a call, whether it returned or threw.
unfoldable pub serve : Db → Call → Db
serve db (punches i actor) = (punch i actor db).1
serve db (creates input) = (create input db).1
serve db (updates id patch) = (update id patch db).1
serve db (deletes now id deleted_by) = (soft_delete now id deleted_by db).1
serve db (corrects input) = (apply_correction input db).1

unfoldable pub serve_all : Db → List Call → Db
serve_all db [] = db
serve_all db (c ∷ calls) = serve_all (serve db c) calls

serve-IsTimesheet : (db : Db) (c : Call) → IsTimesheet db → IsTimesheet (serve db c)
unfolding serve
serve-IsTimesheet db (punches i actor) h = punch-IsTimesheet db h i actor
serve-IsTimesheet db (creates input) h = create-IsTimesheet db h input
serve-IsTimesheet db (updates id patch) h = update-IsTimesheet db h id patch
serve-IsTimesheet db (deletes now id deleted_by) h = soft_delete-IsTimesheet db h now id deleted_by
serve-IsTimesheet db (corrects input) h = apply_correction-IsTimesheet input db h

-- A table that is in order stays so, whatever punches, admin writes and corrections follow one
-- another, and whichever of them fail. In order means that a row is open exactly as long as it has
-- no end, an end comes after its start, no employee has two open rows, and the ids are distinct and
-- below the next one.
pub serve_all-IsTimesheet :
    (db : Db) (calls : List Call) → IsTimesheet db → IsTimesheet (serve_all db calls)
unfolding serve_all
serve_all-IsTimesheet db [] h = h
serve_all-IsTimesheet db (c ∷ calls) h =
    serve_all-IsTimesheet (serve db c) calls (serve-IsTimesheet db c h)
