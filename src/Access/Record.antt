-- ===== src/Access/Record.antt =====
-- users/domain/user.ts and users/domain/user-permissions.ts: the fields that decide access.
use Prim.Native.String.{String}
use text.Mathlib.Text.{◌==◌}
use asima_backend.Base.{ℕ, Bool, Option, none, some, List, any}

-- `permissions` is none where the role, or its list of permissions, is not loaded.
pub record User : Type 0 where
  pub id : ℕ
  pub system_admin : Bool
  pub is_active : Bool
  pub permissions : Option (List String)
  pub deleted_at : Option ℕ

abbrev pub loaded_permissions : Option (List String) → List String
loaded_permissions none = List.[]
loaded_permissions (some codes) = codes

-- `(user.role?.permissions ?? []).some((p) => p.code === code)`
unfoldable pub has_permission : User → String → Bool
has_permission user code = any (λ p. p == code) (loaded_permissions user.permissions)
