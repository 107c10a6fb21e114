-- ===== src/Preview/View.antt =====
-- What the preview shows: the branches of `SourcePreview` and of `PdfPreview`.
use cassist.Prelude.{
  ℕ, String, Bool, true, false, Option, none, some, List, [], ◌∷◌, Message, count, words,
  if◌then◌else◌, eqb, ltb, length, map, ◌==◌,
}
use cassist.Preview.Pdf.{Pdf}

-- What stands below the heading.
pub data Shown : Type 0 where
  nothing : Shown
  loading_original : Shown
  load_error : (message : String) → Shown
  pdf_preview : (source_url : String) → Shown
  image_preview : (source_url : String) → Shown

unfoldable pub show_source : Option String → Option String → Shown
show_source mime_type none = nothing
show_source none (some url) = if url == "" then nothing else image_preview url
show_source (some mime) (some url) =
    if url == ""
    then nothing
    else if mime == "application/pdf"
    then pdf_preview url
    else image_preview url

unfoldable pub source_preview : Bool → Option String → Option String → Option String → Shown
unfolding show_source
source_preview true error mime_type source_url = loading_original
source_preview false (some message) mime_type source_url = load_error message
source_preview false none mime_type source_url = show_source mime_type source_url

-- The pages with a thumbnail, and whether each is the current one.
unfoldable pub thumbnails {ℓ} : {W : Type ℓ} → Pdf W → List (ℕ × Bool)
thumbnails s =
    if ltb 1 (length s.pages)
    then map (λ d. (d.page_number, eqb s.current_page d.page_number)) s.pages
    else []

-- `aria-label` of a page, and of its thumbnail
unfoldable pub page_name : ℕ → Message
page_name k = words "Page " ∷ count k ∷ []

unfoldable pub thumbnail_name : ℕ → Message
thumbnail_name k = words "Go to page " ∷ count k ∷ []

unfoldable pub render_error_text : ℕ → Message
render_error_text k = words "Could not render page " ∷ count k ∷ words "." ∷ []

-- `PreviewError`, whose button is there where a retry is given
pub record PreviewError : Type 0 where
  pub message : String
  pub retry : Bool

unfoldable pub pdf_error : Option String → Option PreviewError
pdf_error none = none
pdf_error (some e) = some (record { message = "Could not render this PDF."; retry = true })
