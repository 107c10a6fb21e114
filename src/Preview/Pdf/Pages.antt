-- ===== src/Preview/Pdf/Pages.antt =====
-- The current page of a PDF stays one of its pages.
use cassist.Prelude.{
  ℕ, suc, ◌+◌, ◌-◌, ◌≤◌, ◌<◌, ◌≡◌, refl, String, Bool, true, false, Option, none, some, List, [],
  ◌∷◌, All, if◌then◌else◌, min, max, arith, ◌==◌, ◌||◌, not, eqb, length,
}
use cassist.Preview.Numbers.{Numbers}
use cassist.Preview.Image.{Size, zoom_step, zoom_in_disabled, zoom_out_disabled}
use cassist.Preview.Load.{Viewport, Descriptor}
use cassist.Preview.Pdf.{
  Pdf, PdfDrag, change_zoom, register_page, go_to_page, scroll_to, bounded_page, fit_current_page,
  fit_in, current_descriptor, rotate, reset_view, sharpen, no_pages, previous_disabled,
  next_disabled, start_dragging, move_drag, stop_dragging, key_down,
}
use cassist.Preview.Pdf.Events.{
  Event, zoom_out, zoom_in, pressed_reset, pressed_fit, pressed_rotate, pressed_previous,
  pressed_next, sharpened, pointer_up, thumbnail_selected, next_frame, became_visible, key_pressed,
  pointer_down, pointer_moved, registered, scroll_root_set, loaded, handle, handle_all,
}

module _ {ℓ} {W : Type ℓ} where
  -- The current page is one of the pages, which are `pages` in number.
  pub record IsOnPage (pages : ℕ) (s : Pdf W) : Type 0 where
    pub size : length s.pages ≡ pages
    pub first : 1 ≤ s.current_page
    pub last : s.current_page ≤ pages

  -- A page found visible is one of the pages, and a load is of a document with as many pages.
  abbrev pub IsAllowed : ℕ → Event W → Type 0
  IsAllowed pages (became_visible k) = (1 ≤ k) × (k ≤ pages)
  IsAllowed pages (loaded ds) = length ds ≡ pages
  IsAllowed pages _ = Unit

  either-IsOnPage :
      (pages : ℕ) (b : Bool) (s t : Pdf W)
      → IsOnPage pages s
      → IsOnPage pages t
      → IsOnPage pages (if b then s else t)
  either-IsOnPage pages true s t hs ht = hs
  either-IsOnPage pages false s t hs ht = ht

  keeps-IsOnPage :
      (pages : ℕ) (s t : Pdf W)
      → IsOnPage pages s
      → t.pages ≡ s.pages
      → t.current_page ≡ s.current_page
      → IsOnPage pages t
  keeps-IsOnPage pages s t h d c = record {
    size = rw d h.size;
    first = rw c h.first;
    last = rw c h.last;
  }

module _ {ℓ} {W : Type ℓ} ⦃n : Numbers W⦄ where
  scroll_to-page :
      (behavior : String) (root : Option Size) (element : Option W) (s : Pdf W)
      → ((scroll_to behavior root element s).pages ≡ s.pages)
        × ((scroll_to behavior root element s).current_page ≡ s.current_page)
  unfolding scroll_to
  scroll_to-page behavior none element s = (refl, refl)
  scroll_to-page behavior (some root) none s = (refl, refl)
  scroll_to-page behavior (some root) (some top) s = (refl, refl)

  -- Whatever page is asked for, the current page is the nearest one of the document.
  go_to_page-current :
      (k : ℕ) (behavior : String) (s : Pdf W)
      → ((go_to_page k behavior s).pages ≡ s.pages)
        × ((go_to_page k behavior s).current_page ≡ min (length s.pages) (max 1 k))
  unfolding go_to_page bounded_page
  go_to_page-current k behavior s =
      let page = min (length s.pages) (max 1 k) in
      scroll_to-page behavior s.scroll_root (s.elements page) (record s { current_page = page })

  go_to_page-IsOnPage :
      (pages k : ℕ) (behavior : String) (s : Pdf W)
      → IsOnPage pages s
      → IsOnPage pages (go_to_page k behavior s)
  go_to_page-IsOnPage pages k behavior s h =
      let (d, c) = go_to_page-current k behavior s in
      record {
        size = rw d h.size;
        first = rw c (omega (arith, h.size, h.first, h.last));
        last = rw c (omega (arith, h.size));
      }

  zoomed-IsOnPage :
      (pages : ℕ) (next : W) (s : Pdf W) → IsOnPage pages s → IsOnPage pages (change_zoom next s)
  unfolding change_zoom
  zoomed-IsOnPage pages next s h = keeps-IsOnPage pages s _ h refl refl

  fit_in-IsOnPage :
      (rotated : Descriptor W → ℕ → Viewport W) (pages : ℕ) (d : Option (Descriptor W))
      (root : Option Size) (s : Pdf W)
      → IsOnPage pages s
      → IsOnPage pages (fit_in rotated d root s)
  unfolding fit_in change_zoom
  fit_in-IsOnPage rotated pages none root s h = h
  fit_in-IsOnPage rotated pages (some d) none s h = h
  fit_in-IsOnPage rotated pages (some d) (some root) s h = keeps-IsOnPage pages s _ h refl refl

  move_drag-IsOnPage :
      (pages : ℕ) (x y : W) (d : Option (PdfDrag W)) (s : Pdf W)
      → IsOnPage pages s
      → IsOnPage pages (move_drag x y d s)
  unfolding move_drag
  move_drag-IsOnPage pages x y none s h = h
  move_drag-IsOnPage pages x y (some d) s h = keeps-IsOnPage pages s _ h refl refl

  key_down-IsOnPage :
      (pages : ℕ) (key : String) (s : Pdf W) → IsOnPage pages s → IsOnPage pages (key_down key s)
  unfolding key_down
  key_down-IsOnPage pages key s h =
      either-IsOnPage pages ((key == "+") || (key == "=")) (change_zoom (n.plus s.zoom zoom_step) s)
        (if key == "-" then change_zoom (n.minus s.zoom zoom_step) s else s)
        (zoomed-IsOnPage pages (n.plus s.zoom zoom_step) s h)
        (either-IsOnPage pages (key == "-") (change_zoom (n.minus s.zoom zoom_step) s) s
          (zoomed-IsOnPage pages (n.minus s.zoom zoom_step) s h) h)

module _ {ℓ} {W : Type ℓ} ⦃n : Numbers W⦄ (rotated : Descriptor W → ℕ → Viewport W)
    (pages : ℕ) where
  handle-IsOnPage :
      (e : Event W) (s : Pdf W)
      → IsAllowed pages e
      → IsOnPage pages s
      → IsOnPage pages (handle rotated e s)
  unfolding handle sharpen stop_dragging register_page reset_view fit_current_page rotate
      start_dragging
  handle-IsOnPage zoom_out s ok h =
      either-IsOnPage pages (zoom_out_disabled s.zoom) s _ h
        (zoomed-IsOnPage pages (n.minus s.zoom zoom_step) s h)
  handle-IsOnPage zoom_in s ok h =
      either-IsOnPage pages (zoom_in_disabled s.zoom) s _ h
        (zoomed-IsOnPage pages (n.plus s.zoom zoom_step) s h)
  handle-IsOnPage pressed_reset s ok h =
      let t = record s { zoom = n.whole 1; rotation = 0 } in
      go_to_page-IsOnPage pages 1 "smooth" t (keeps-IsOnPage pages s t h refl refl)
  handle-IsOnPage pressed_fit s ok h =
      either-IsOnPage pages (no_pages s) s _ h
        (fit_in-IsOnPage rotated pages (current_descriptor s) s.scroll_root s h)
  handle-IsOnPage pressed_rotate s ok h =
      either-IsOnPage pages (no_pages s) s _ h (keeps-IsOnPage pages s _ h refl refl)
  handle-IsOnPage pressed_previous s ok h =
      either-IsOnPage pages (previous_disabled s) s _ h
        (go_to_page-IsOnPage pages (s.current_page - 1) "smooth" s h)
  handle-IsOnPage pressed_next s ok h =
      either-IsOnPage pages (next_disabled s) s _ h
        (go_to_page-IsOnPage pages (s.current_page + 1) "smooth" s h)
  handle-IsOnPage sharpened s ok h = keeps-IsOnPage pages s _ h refl refl
  handle-IsOnPage pointer_up s ok h = keeps-IsOnPage pages s _ h refl refl
  handle-IsOnPage (thumbnail_selected k) s ok h = go_to_page-IsOnPage pages k "smooth" s h
  handle-IsOnPage (next_frame k behavior) s ok h = go_to_page-IsOnPage pages k behavior s h
  handle-IsOnPage (became_visible k) s ok h = record { size = h.size; first = ok.0; last = ok.1 }
  handle-IsOnPage (key_pressed key) s ok h = key_down-IsOnPage pages key s h
  handle-IsOnPage (pointer_down b t x y) s ok h =
      either-IsOnPage pages (not (eqb b 0) || t) s _ h (keeps-IsOnPage pages s _ h refl refl)
  handle-IsOnPage (pointer_moved x y) s ok h = move_drag-IsOnPage pages x y s.drag s h
  handle-IsOnPage (registered k element) s ok h = keeps-IsOnPage pages s _ h refl refl
  handle-IsOnPage (scroll_root_set root) s ok h = keeps-IsOnPage pages s _ h refl refl
  handle-IsOnPage (loaded ds) s ok h = record { size = ok; first = h.first; last = h.last }

  -- The current page is one of the document's pages, every page found visible is one of them, and
  -- every later load is of as many pages. Then the current page is one of the pages after any events.
  pub handle_all-IsOnPage :
      (es : List (Event W)) (s : Pdf W)
      → All (IsAllowed pages) es
      → IsOnPage pages s
      → IsOnPage pages (handle_all rotated es s)
  unfolding handle_all
  handle_all-IsOnPage [] s ok h = h
  handle_all-IsOnPage (e ∷ es) s ok h =
      handle_all-IsOnPage es (handle rotated e s) ok.1 (handle-IsOnPage e s ok.0 h)

  next_enabled :
      (s : Pdf W)
      → IsOnPage pages s
      → next_disabled s ≡ false
      → (handle rotated pressed_next s ≡ go_to_page (s.current_page + 1) "smooth" s)
        × (s.current_page < pages)
  unfolding handle next_disabled no_pages
  next_enabled s h enabled = (rw enabled refl, ground (arith, h.size))

  previous_enabled :
      (s : Pdf W)
      → IsOnPage pages s
      → 1 < s.current_page
      → handle rotated pressed_previous s ≡ go_to_page (s.current_page - 1) "smooth" s
  unfolding handle previous_disabled no_pages
  previous_enabled s h more =
      let e : previous_disabled s ≡ false = ground (arith, h.size, h.last) in rw e refl

  -- The current page is one of the pages and not the last. Then the next page is the current one more,
  -- and the previous one of it is the page before.
  pub previous-next :
      (s : Pdf W)
      → IsOnPage pages s
      → next_disabled s ≡ false
      → ((handle rotated pressed_next s).current_page ≡ suc s.current_page)
        × ((handle rotated pressed_previous (handle rotated pressed_next s)).current_page
            ≡ s.current_page)
  previous-next s h enabled =
      let (turned, inside) = next_enabled s h enabled in
      let t = go_to_page (s.current_page + 1) "smooth" s in
      let ht : IsOnPage pages t = go_to_page-IsOnPage pages (s.current_page + 1) "smooth" s h in
      let (_, ct) = go_to_page-current (s.current_page + 1) "smooth" s in
      let more : t.current_page ≡ suc s.current_page = omega (arith, ct, h.size, inside) in
      let (_, cu) = go_to_page-current (t.current_page - 1) "smooth" t in
      rw (turned, previous_enabled t ht (omega (arith, more, h.first)))
        (more, omega (arith, cu, ht.size, more, h.first, inside))
