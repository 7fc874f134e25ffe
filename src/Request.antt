-- ===== src/Request.antt =====
-- The vocabulary that leave and time-correction requests share (the two constants files declare
-- the same five states and two decision paths, and the two actor types the same five fields).
use asima_backend.Base.{ℕ, Bool, true, false, ◌||◌, ◌&&◌, List, [], ◌∷◌, leb, ◌==◌}

pub data Status : Type 0 where
  pending_l1 pending_l2 approved rejected cancelled : Status

pub data DecisionPath : Type 0 where
  chain override : DecisionPath

-- What the acting user may do, taken from the user by the use-case.
pub record Actor : Type 0 where
  pub user_id : ℕ
  pub is_system_admin : Bool
  pub can_approve : Bool
  pub can_approve_any : Bool
  pub can_delete : Bool

-- `LeaveStatus.isPending`, `CorrectionStatus.isPending` and the services' `isPending`.
abbrev pub is_pending : Status → Bool
is_pending pending_l1 = true
is_pending pending_l2 = true
is_pending _ = false

-- `LeaveStatus.isActive`: also the `status IN (approved, pending_l1, pending_l2)` of the queries.
abbrev pub is_active_status : Status → Bool
is_active_status approved = true
is_active_status s = is_pending s

abbrev pub is_override : Actor → Bool
is_override a = a.is_system_admin || a.can_approve_any

-- A text is the list of its UTF-16 code units.
abbrev pub Text : Type 0
Text = List ℕ

-- The white space and line terminators that `String.prototype.trim` removes.
abbrev is_space : ℕ → Bool
is_space c =
    (leb 9 c && leb c 13)
    || (c == 32
        || (c == 160
            || (c == 5760
                || ((leb 8192 c && leb c 8202)
                    || (c == 8232
                        || (c == 8233
                            || (c == 8239 || (c == 8287 || (c == 12288 || c == 65279)))))))))

-- `!note || note.trim().length === 0`: nothing is left when every unit is white space.
unfoldable pub is_blank : Text → Bool
is_blank [] = true
is_blank (c ∷ cs) = is_space c && is_blank cs
