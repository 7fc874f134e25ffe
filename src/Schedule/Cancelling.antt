-- ===== src/Schedule/Cancelling.antt =====
-- `systemCancel` of leave-requests/persistence/repositories/leave-request.repository.ts, and the
-- transaction of work-schedules/schedule-change.service.ts that calls it.
use asima_backend.Base.{
  ℕ, ◌≡◌, refl, inl, inr, true, false, ◌&&◌, List, [], ◌∷◌, none, some, arith, Bool-cases, is_none,
}
use asima_backend.Request.{cancelled, is_active_status, Text}
use asima_backend.Db.{Db}
use asima_backend.Leave.{LeaveRequestRecord, has_id, system_cancel}

-- One row before and after: it is left alone, or it was a live request of the list and is
-- cancelled by the actor with the note, its days, dates and approvals kept.
pub data Step (ids : List ℕ) (now actor : ℕ) (note : Text) (r r' : LeaveRequestRecord)
    : Type 0 where
  untouched :
      r' ≡ r
      → (has_id ids r.id && (is_active_status r.status && is_none r.deleted_at)) ≡ false
      → Step ids now actor note r r'
  flipped :
      has_id ids r.id ≡ true
      → is_active_status r.status ≡ true
      → r.deleted_at ≡ none
      → r' ≡ record r {
        status = cancelled;
        cancelled_at = some now;
        cancelled_by = some actor;
        decision_note = some note;
        updated_by = some actor;
      }
      → Step ids now actor note r r'

abbrev pub Pairwise :
    (LeaveRequestRecord → LeaveRequestRecord → Type 0)
    → List LeaveRequestRecord
    → List LeaveRequestRecord
    → Type 0
Pairwise R [] [] = Unit
Pairwise R (x ∷ xs) (y ∷ ys) = R x y × Pairwise R xs ys
Pairwise R _ _ = ⊥

Step-of :
    (ids : List ℕ) (now actor : ℕ) (note : Text) (r r' : LeaveRequestRecord)
    → system_cancel now ids actor note (r ∷ []) ≡ r' ∷ []
    → Step ids now actor note r r'
unfolding system_cancel
Step-of ids now actor note r r' h =
    elim (Bool-cases (has_id ids r.id && (is_active_status r.status && is_none r.deleted_at))) [
      | inl hit ↦ Step.flipped (ground arith) (ground arith) (ground arith) (ground arith)
      | inr spared ↦ Step.untouched (ground arith) spared
    ]

-- The rows keep their number and order, a row that is terminal, deleted or not on the list is left
-- alone, and any other is cancelled.
pub system_cancel-Pairwise :
    (now : ℕ) (ids : List ℕ) (actor : ℕ) (note : Text) (rows : List LeaveRequestRecord)
    → Pairwise (Step ids now actor note) rows (system_cancel now ids actor note rows)
unfolding system_cancel
system_cancel-Pairwise now ids actor note [] = tt
system_cancel-Pairwise now ids actor note (r ∷ rows) =
    (Step-of ids now actor note r _ refl, system_cancel-Pairwise now ids actor note rows)
