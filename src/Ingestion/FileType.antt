-- ===== src/Ingestion/FileType.antt =====
-- app/ingestion/filetype.py: `detect`. The extension is `os.path.splitext(filename)[1].lower()`, which
-- the caller passes; `none` is the ValueError.
use agentic_rag_claude_code.Prelude.{
  ℕ, ◌≡◌, ◌≤◌, ap, inl, inr, Bool, false, ◌||◌, Option, none, some, List, [], ◌∷◌, Text, codes,
  text_eq, text_eq→eq, take, length, length-take-le, Bool-cases, arith, if◌then◌else◌,
}

pub data FileType : Type 0 where
  pdf docx pptx xlsx csv txt md html image : FileType

unfoldable pub lookup : List (Text × FileType) → Text → Option FileType
lookup [] ext = none
lookup ((e, f) ∷ rest) ext = let found = lookup rest ext in if text_eq ext e then some f else found

abbrev pub ext_map : List (Text × FileType)
ext_map =
    (codes ".pdf", pdf)
    ∷ (codes ".docx", docx)
    ∷ (codes ".pptx", pptx)
    ∷ (codes ".xlsx", xlsx)
    ∷ (codes ".csv", csv)
    ∷ (codes ".txt", txt)
    ∷ (codes ".md", md)
    ∷ (codes ".markdown", md)
    ∷ (codes ".html", html)
    ∷ (codes ".htm", html)
    ∷ (codes ".png", image)
    ∷ (codes ".jpg", image)
    ∷ (codes ".jpeg", image)
    ∷ (codes ".tif", image)
    ∷ (codes ".tiff", image)
    ∷ (codes ".bmp", image)
    ∷ []

unfoldable pub by_extension : Text → Option FileType
unfolding lookup
by_extension ext = lookup ext_map ext

-- head.startswith(b"%PDF")
abbrev pub is_pdf : Text → Bool
is_pdf head = text_eq (take 4 head) (codes "%PDF")

-- the heads of PNG, JPEG and GIF
abbrev pub is_image : Text → Bool
is_image head =
    text_eq (take 4 head) (137 ∷ 80 ∷ 78 ∷ 71 ∷ [])
    || text_eq (take 3 head) (255 ∷ 216 ∷ 255 ∷ [])
    || text_eq (take 6 head) (codes "GIF87a")
    || text_eq (take 6 head) (codes "GIF89a")

-- b"PK\x03\x04"
abbrev pub zip_magic : Text
zip_magic = 80 ∷ 75 ∷ 3 ∷ 4 ∷ []

abbrev pub is_ooxml : Text → Bool
is_ooxml ext =
    text_eq ext (codes ".docx") || text_eq ext (codes ".pptx") || text_eq ext (codes ".xlsx")

unfoldable pub detect : Text → Text → Option FileType
unfolding by_extension
detect ext bytes =
    let head = take 8 bytes in
    if is_pdf head
    then some pdf
    else if is_image head
    then some image
    else if text_eq (take 2 head) zip_magic
    then (if is_ooxml ext then by_extension ext else none)
    else by_extension ext

too_short : (s : Text) → length s ≤ 2 → s ≡ zip_magic → ⊥
too_short s h e = four (length s) h (ap length e)
  where
    four : (n : ℕ) → n ≤ 2 → n ≡ 4 → ⊥
    four n h e = omega arith

never_zip : (head : Text) → text_eq (take 2 head) zip_magic ≡ false
never_zip head = elim (Bool-cases (text_eq (take 2 head) zip_magic)) [
  | inl h ↦
      elim (too_short (take 2 head) (length-take-le 2 head)
        (text_eq→eq (take 2 head) zip_magic h)) [ ]
  | inr h ↦ h
]

-- Whatever the extension and the bytes, the type is PDF or an image where the bytes begin so, and the
-- one of the extension otherwise: the branch for ZIP containers, which would refuse those that are no
-- office document, is never taken.
detect-by_extension :
    (ext bytes : Text)
    → detect ext bytes ≡ (
        if is_pdf (take 8 bytes)
        then some pdf
        else if is_image (take 8 bytes)
        then some image
        else by_extension ext)
unfolding detect
detect-by_extension ext bytes =
    ap
      (λ b.
        if is_pdf (take 8 bytes)
        then some pdf
        else if is_image (take 8 bytes)
        then some image
        else if b
        then (if is_ooxml ext then by_extension ext else none)
        else by_extension ext)
      (never_zip (take 8 bytes))
