-- ===== src/Storage/Validation.antt =====
-- storage/file-validation.ts: a file is recognised by its first bytes, never by its name.
use asima_backend.Base.{
  ℕ, zero, suc, ◌*◌, Bool, true, false, ◌&&◌, Option, none, some, List, [], ◌∷◌, Result, ok, err,
  Error, unprocessable, file, ◌%◌, length, ltb, ◌==◌, is_empty, if◌then◌else◌,
}

pub data FileKind : Type 0 where
  image pdf : FileKind

pub data FileType : Type 0 where
  jpeg png webp pdf_document : FileType

abbrev pub kind_of : FileType → FileKind
kind_of pdf_document = pdf
kind_of _ = image

-- `prefix.every((b, i) => buffer[i] === b)` with `buffer.length >= prefix.length`.
abbrev pub starts_with : List ℕ → List ℕ → Bool
starts_with [] buffer = true
starts_with (b ∷ bs) [] = false
starts_with (b ∷ bs) (c ∷ cs) = c == b && starts_with bs cs

abbrev drop : ℕ → List ℕ → List ℕ
drop zero xs = xs
drop (suc n) [] = []
drop (suc n) (x ∷ xs) = drop n xs

-- The ASCII texts are compared byte by byte ("RIFF", "WEBP", "%PDF-"). Decoding as ASCII drops
-- the top bit of a byte, so a byte is taken modulo 128 there.
abbrev ascii : List ℕ → List ℕ
ascii [] = []
ascii (c ∷ cs) = (c % 128) ∷ ascii cs

unfoldable pub sniff : List ℕ → Option FileType
sniff buffer =
    if starts_with (0xff ∷ 0xd8 ∷ 0xff ∷ []) buffer
    then some jpeg
    else if starts_with (0x89 ∷ 0x50 ∷ 0x4e ∷ 0x47 ∷ 0x0d ∷ 0x0a ∷ 0x1a ∷ 0x0a ∷ []) buffer
    then some png
    else if starts_with (0x52 ∷ 0x49 ∷ 0x46 ∷ 0x46 ∷ []) (ascii buffer)
        && starts_with (0x57 ∷ 0x45 ∷ 0x42 ∷ 0x50 ∷ []) (ascii (drop 8 buffer))
    then some webp
    else if starts_with (0x25 ∷ 0x50 ∷ 0x44 ∷ 0x46 ∷ 0x2d ∷ []) (ascii buffer)
    then some pdf_document
    else none

abbrev recognised : Option FileType → Result Error FileType
recognised none = err (unprocessable file)
recognised (some t) = ok t

-- The size is looked at before the bytes.
unfoldable pub validate_upload : List ℕ → (max_file_mb : ℕ) → Result Error FileType
unfolding sniff
validate_upload buffer max_file_mb =
    if is_empty buffer
    then err (unprocessable file)
    else if ltb (max_file_mb * 1024 * 1024) (length buffer)
    then err (unprocessable file)
    else recognised (sniff buffer)
