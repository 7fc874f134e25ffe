-- ===== src/Storage/Record.antt =====
-- storage/domain/attachment.ts and storage/domain/file-version.ts: the rows, the object keys, and
-- what the service has prepared before the transaction.
use asima_backend.Base.{ℕ, Bool, true, false, List, ◌&&◌, ◌==◌}
use asima_backend.Storage.Validation.{FileType, FileKind}

pub data FileVersion : Type 0 where
  original preview thumbnail : FileVersion

abbrev pub same_version : FileVersion → FileVersion → Bool
same_version original original = true
same_version preview preview = true
same_version thumbnail thumbnail = true
same_version _ _ = false

-- `<namespace>/<uuid>/<version>.<ext>`, without the extension: the number stands for the prefix.
pub record ObjectKey : Type 0 where
  pub object_key_prefix : ℕ
  pub version : FileVersion

abbrev pub same_key : ObjectKey → ObjectKey → Bool
same_key a b = a.object_key_prefix == b.object_key_prefix && same_version a.version b.version

pub record PreparedAttachment : Type 0 where
  pub object_key_prefix : ℕ
  pub content_type : FileType
  pub size_bytes : ℕ
  pub kind : FileKind
  pub has_versions : Bool
  pub owner_id : ℕ
  pub created_by : ℕ
  pub uploaded_keys : List ObjectKey

pub record Attachment : Type 0 where
  pub id : ℕ
  pub object_key_prefix : ℕ
  pub content_type : FileType
  pub size_bytes : ℕ
  pub kind : FileKind
  pub has_versions : Bool
  pub owner_id : ℕ
  pub created_by : ℕ

-- The object store, the image library and the generator of UUIDs, as far as a call meets them:
-- which puts and deletes go through, whether an image can be decoded, and the fresh prefix.
pub record ObjectStore : Type 0 where
  pub accepts : ObjectKey → Bool
  pub deletes : ObjectKey → Bool
  pub decodes : List ℕ → Bool
  pub uuid : ℕ
  pub max_file_mb : ℕ
