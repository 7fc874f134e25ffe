-- ===== src/Allocation/Balance.antt =====
-- leave-requests/leave-balance.service.ts against the check that a submission makes.
use asima_backend.Base.{ℕ, ◌+◌, ◌≡◌, arith}
use asima_backend.Db.{Db}
use asima_backend.Leave.{LeaveType}
use asima_backend.Leave.Ledger.{used_reserved}
use asima_backend.Leave.Reserve.{IsCovered}
use asima_backend.Allocation.Service.{balance_of}

-- On a covered ledger the balance that is displayed adds up: nothing is clipped at zero.
pub balance_of-exact :
    (db : Db) (e : ℕ) (t : LeaveType)
    → IsCovered db
    → let b = balance_of db e t in b.used + b.reserved + b.available ≡ b.allowance
unfolding balance_of
balance_of-exact db e t h = omega (arith, used_reserved e t db.leaves, h e t)
