-- ===== src/Storage/Service.antt =====
-- storage/attachment.service.ts over the tables and the objects of the store.
use asima_backend.Base.{
  ℕ, ◌+◌, Bool, true, false, not, List, [], ◌∷◌, ◌++◌, ok, internal, ◌>>=◌, ◌>>◌, pure, throw_if,
  modify, lift_with, filter, length, if◌then◌else◌,
}
use asima_backend.Db.{Use}
use asima_backend.Storage.Validation.{FileKind, image, pdf, kind_of, validate_upload}
use asima_backend.Storage.Record.{
  original, preview, thumbnail, ObjectKey, same_key, PreparedAttachment, ObjectStore,
}

-- `storage.put`
put : ObjectStore → ObjectKey → Use (Unit {0})
put w key = do
  throw_if (not (w.accepts key)) internal
  modify (λ db. record db { objects = db.objects ++ key ∷ [] })

put_versions : ObjectStore → List ℕ → FileKind → Use (List ObjectKey)
unfolding put
put_versions w buffer pdf = pure []
put_versions w buffer image = do
  throw_if (not (w.decodes buffer)) internal
  put w (record { object_key_prefix = w.uuid; version = preview })
  put w (record { object_key_prefix = w.uuid; version = thumbnail })
  pure (
      record { object_key_prefix = w.uuid; version = preview }
      ∷ record { object_key_prefix = w.uuid; version = thumbnail }
      ∷ [])

abbrev has_versions_of : FileKind → Bool
has_versions_of image = true
has_versions_of pdf = false

unfoldable pub upload_for_owner :
    ObjectStore → List ℕ → (owner_id actor_id : ℕ) → Use PreparedAttachment
unfolding put_versions put
upload_for_owner w buffer owner_id actor_id = do
  t ← lift_with (λ e. e) (validate_upload buffer w.max_file_mb)
  put w (record { object_key_prefix = w.uuid; version = original })
  derived ← put_versions w buffer (kind_of t)
  pure (record {
    object_key_prefix = w.uuid;
    content_type = t;
    size_bytes = length buffer;
    kind = kind_of t;
    has_versions = has_versions_of (kind_of t);
    owner_id = owner_id;
    created_by = actor_id;
    uploaded_keys = record { object_key_prefix = w.uuid; version = original } ∷ derived;
  })

-- Inserts the row, and returns its id.
unfoldable pub persist : PreparedAttachment → Use ℕ
persist a db = (
  ok db.next_id,
  record db {
    next_id = db.next_id + 1;
    attachments =
        db.attachments
        ++ record {
          id = db.next_id;
          object_key_prefix = a.object_key_prefix;
          content_type = a.content_type;
          size_bytes = a.size_bytes;
          kind = a.kind;
          has_versions = a.has_versions;
          owner_id = a.owner_id;
          created_by = a.created_by;
        }
          ∷ [];
  },
)

remove_object : ObjectStore → List ObjectKey → ObjectKey → List ObjectKey
remove_object w objects key =
    if w.deletes key then filter (λ o. not (same_key o key)) objects else objects

remove_objects : ObjectStore → List ObjectKey → List ObjectKey → List ObjectKey
unfolding remove_object
remove_objects w objects [] = objects
remove_objects w objects (key ∷ keys) = remove_objects w (remove_object w objects key) keys

-- A delete that fails is logged and passed over.
unfoldable pub cleanup : ObjectStore → PreparedAttachment → Use (Unit {0})
unfolding remove_objects
cleanup w a = modify (λ db. record db { objects = remove_objects w db.objects a.uploaded_keys })
