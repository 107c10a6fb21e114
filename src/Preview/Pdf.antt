-- ===== src/Preview/Pdf.antt =====
-- `PdfPreview`: the zoom, the rotation and the current page of a PDF.
use cassist.Prelude.{
  ℕ, zero, suc, ◌+◌, ◌-◌, ◌%◌, ◌≡◌, String, Bool, true, false, not, ◌&&◌, ◌||◌, Option, none, some,
  List, [], ◌∷◌, Message, count, words, if◌then◌else◌, min, max, eqb, leb, length, get_elem?, ◌==◌,
}
use cassist.Preview.Numbers.{Numbers, bounded}
use cassist.Preview.Image.{Size, min_zoom, max_zoom, zoom_step, zoom_in_disabled, zoom_out_disabled}
use cassist.Preview.Load.{Viewport, Descriptor}
pub mod Events
pub mod Bounds
pub mod Pages
pub mod Current
pub mod Visible

-- The zoom and rotation that the pages are drawn with.
pub record RenderView {ℓ} (W : Type ℓ) : Type ℓ where
  pub rotation : ℕ
  pub zoom : W

-- Where the view was scrolled to: an element's top, and the behaviour.
pub record ScrolledTo {ℓ} (W : Type ℓ) : Type ℓ where
  pub behavior : String
  pub top : W

-- `drag.current` of the PDF
pub record PdfDrag {ℓ} (W : Type ℓ) : Type ℓ where
  pub left : W
  pub top : W
  pub pointer_x : W
  pub pointer_y : W

-- `elements` has the tops of the mounted pages, by page number, and `scroll_root` the size of the
-- scrolled element; `left` and `top` are where it is scrolled to by a drag, `scrolls` its other
-- scrolls, the latest first.
pub record Pdf {ℓ} (W : Type ℓ) : Type ℓ where
  pub pages : List (Descriptor W)
  pub zoom : W
  pub rotation : ℕ
  pub render_view : RenderView W
  pub current_page : ℕ
  pub scroll_root : Option Size
  pub elements : ℕ → Option W
  pub drag : Option (PdfDrag W)
  pub left : W
  pub top : W
  pub scrolls : List (ScrolledTo W)

-- `Math.min(pages.length, Math.max(1, pageNumber))`
unfoldable pub bounded_page : ℕ → ℕ → ℕ
bounded_page pages page_number = min pages (max 1 page_number)

module _ {ℓ} {W : Type ℓ} ⦃n : Numbers W⦄ where
  unfoldable pub change_zoom : W → Pdf W → Pdf W
  change_zoom next s = record s { zoom = bounded min_zoom max_zoom next }

  unfoldable pub register_page : ℕ → Option W → Pdf W → Pdf W
  register_page page_number element s = record s {
    elements = λ k. if eqb k page_number then element else s.elements k;
  }

  unfoldable pub scroll_to : String → Option Size → Option W → Pdf W → Pdf W
  scroll_to behavior none element s = s
  scroll_to behavior (some root) none s = s
  scroll_to behavior (some root) (some offset_top) s = record s {
    scrolls =
        record {
          behavior = behavior;
          top = n.greatest (n.whole 0) (n.minus offset_top (n.whole 16));
        }
        ∷ s.scrolls;
  }

  unfoldable pub go_to_page : ℕ → String → Pdf W → Pdf W
  unfolding bounded_page scroll_to
  go_to_page page_number behavior s =
      let page = bounded_page (length s.pages) page_number in
      scroll_to behavior s.scroll_root (s.elements page) (record s { current_page = page })

  -- `pages[currentPage - 1]`
  unfoldable pub current_descriptor : Pdf W → Option (Descriptor W)
  current_descriptor s =
      if eqb s.current_page 0 then none else get_elem? s.pages (s.current_page - 1)

  unfoldable pub fitted_zoom : Size → Viewport W → W
  fitted_zoom root viewport =
      n.least (n.over (n.whole (max 1 (root.width - 32))) viewport.width)
        (n.over (n.whole (max 1 (root.height - 32))) viewport.height)

  unfoldable pub fit_in :
      (Descriptor W → ℕ → Viewport W) → Option (Descriptor W) → Option Size → Pdf W → Pdf W
  unfolding fitted_zoom change_zoom
  fit_in rotated none root s = s
  fit_in rotated (some d) none s = s
  fit_in rotated (some d) (some root) s = change_zoom (fitted_zoom root (rotated d s.rotation)) s

  -- `rotated` is the library's `getViewport({ rotation, scale: 1 })`; the scroll to the page is on
  -- the next frame.
  unfoldable pub fit_current_page : (Descriptor W → ℕ → Viewport W) → Pdf W → Pdf W
  unfolding current_descriptor fit_in
  fit_current_page rotated s = fit_in rotated (current_descriptor s) s.scroll_root s

  unfoldable pub rotate : Pdf W → Pdf W
  rotate s = record s { rotation = (s.rotation + 90) % 360 }

  unfoldable pub reset_view : Pdf W → Pdf W
  unfolding go_to_page
  reset_view s = go_to_page 1 "smooth" (record s { zoom = n.whole 1; rotation = 0 })

  -- The timer of the effect on rotation and zoom.
  unfoldable pub sharpen : Pdf W → Pdf W
  sharpen s = record s { render_view = record { rotation = s.rotation; zoom = s.zoom } }

  -- `disabled` of the buttons
  unfoldable pub no_pages : Pdf W → Bool
  no_pages s = eqb (length s.pages) 0

  unfoldable pub previous_disabled : Pdf W → Bool
  unfolding no_pages
  previous_disabled s = no_pages s || leb s.current_page 1

  unfoldable pub next_disabled : Pdf W → Bool
  unfolding no_pages
  next_disabled s = no_pages s || leb (length s.pages) s.current_page

  unfoldable pub page_label : Pdf W → Message
  unfolding no_pages
  page_label s =
      if not (no_pages s)
      then count s.current_page ∷ words " / " ∷ count (length s.pages) ∷ []
      else words "…" ∷ []

  -- A press of the pointer, by its button and by whether it is on selectable text.
  unfoldable pub start_dragging : ℕ → Bool → W → W → Pdf W → Pdf W
  start_dragging button on_text client_x client_y s =
      if not (eqb button 0) || on_text then s else record s {
        drag =
            some
              (record { left = s.left; top = s.top; pointer_x = client_x; pointer_y = client_y });
      }

  unfoldable pub move_drag : W → W → Option (PdfDrag W) → Pdf W → Pdf W
  move_drag client_x client_y none s = s
  move_drag client_x client_y (some d) s = record s {
    left = n.minus (n.plus d.left d.pointer_x) client_x;
    top = n.minus (n.plus d.top d.pointer_y) client_y;
  }

  unfoldable pub stop_dragging : Pdf W → Pdf W
  stop_dragging s = record s { drag = none }

  unfoldable pub key_down : String → Pdf W → Pdf W
  unfolding change_zoom
  key_down key s =
      if (key == "+") || (key == "=")
      then change_zoom (n.plus s.zoom zoom_step) s
      else if key == "-"
      then change_zoom (n.minus s.zoom zoom_step) s
      else s
