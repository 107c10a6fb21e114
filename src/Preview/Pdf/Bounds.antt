-- ===== src/Preview/Pdf/Bounds.antt =====
-- The zoom of a PDF stays within its bounds and its rotation stays a multiple of 90 degrees.
use cassist.Prelude.{
  ℕ, suc, ◌+◌, ◌-◌, ◌%◌, ◌<◌, ◌≡◌, refl, String, Bool, true, false, Option, none, some, List, [],
  ◌∷◌, if◌then◌else◌, max, arith, ◌==◌, ◌||◌, not, eqb, length,
}
use cassist.Preview.Numbers.{Numbers, IsNumber, IsOrdered, bounded-IsBetween, least-IsNumber}
use cassist.Preview.Image.{Size, min_zoom, max_zoom, zoom_step, zoom_in_disabled, zoom_out_disabled}
use cassist.Preview.Load.{Viewport, Descriptor}
use cassist.Preview.Pdf.{
  Pdf, PdfDrag, change_zoom, register_page, go_to_page, scroll_to, bounded_page, fit_current_page,
  fitted_zoom, fit_in, current_descriptor, rotate, reset_view, sharpen, no_pages, previous_disabled,
  next_disabled, start_dragging, move_drag, stop_dragging, key_down,
}
use cassist.Preview.Pdf.Events.{
  Event, zoom_out, zoom_in, pressed_reset, pressed_fit, pressed_rotate, pressed_previous,
  pressed_next, sharpened, pointer_up, thumbnail_selected, next_frame, became_visible, key_pressed,
  pointer_down, pointer_moved, registered, scroll_root_set, loaded, handle, handle_all, opened,
}

abbrev pub IsQuarter : ℕ → Type 0
IsQuarter rotation = (rotation < 360) × (rotation % 90 ≡ 0)

rotated-IsQuarter : (rotation : ℕ) → IsQuarter rotation → IsQuarter ((rotation + 90) % 360)
rotated-IsQuarter rotation h = omega arith

module _ {ℓ} {W : Type ℓ} ⦃n : Numbers W⦄ where
  abbrev pub InBounds : W → Type 0
  InBounds zoom = (n.le min_zoom zoom ≡ true) × (n.le zoom max_zoom ≡ true)

  -- The zoom and the rotation, those chosen and those that the pages are drawn with.
  pub record IsViewed (s : Pdf W) : Type 0 where
    pub zoom : InBounds s.zoom
    pub rotation : IsQuarter s.rotation
    pub drawn_zoom : InBounds s.render_view.zoom
    pub drawn_rotation : IsQuarter s.render_view.rotation

  either-IsViewed :
      (b : Bool) (s t : Pdf W) → IsViewed s → IsViewed t → IsViewed (if b then s else t)
  either-IsViewed true s t hs ht = hs
  either-IsViewed false s t hs ht = ht

  -- A state with the same zoom and rotation.
  keeps-IsViewed :
      (s t : Pdf W)
      → IsViewed s
      → t.zoom ≡ s.zoom
      → t.rotation ≡ s.rotation
      → t.render_view ≡ s.render_view
      → IsViewed t
  keeps-IsViewed s t h z r v = record {
    zoom = rw z h.zoom;
    rotation = rw r h.rotation;
    drawn_zoom = rw v h.drawn_zoom;
    drawn_rotation = rw v h.drawn_rotation;
  }

  zoomed-IsViewed :
      IsOrdered W
      → (next : W) (s : Pdf W) → IsNumber next
      → IsViewed s
      → IsViewed (change_zoom next s)
  unfolding change_zoom
  zoomed-IsViewed laws next s number h = record {
    zoom = bounded-IsBetween laws min_zoom max_zoom next laws.half_le number;
    rotation = h.rotation;
    drawn_zoom = h.drawn_zoom;
    drawn_rotation = h.drawn_rotation;
  }

  scrolled-IsViewed :
      (behavior : String) (root : Option Size) (element : Option W) (s : Pdf W)
      → IsViewed s
      → IsViewed (scroll_to behavior root element s)
  unfolding scroll_to
  scrolled-IsViewed behavior none element s h = h
  scrolled-IsViewed behavior (some root) none s h = h
  scrolled-IsViewed behavior (some root) (some top) s h = keeps-IsViewed s _ h refl refl refl

  go_to_page-IsViewed :
      (page_number : ℕ) (behavior : String) (s : Pdf W)
      → IsViewed s
      → IsViewed (go_to_page page_number behavior s)
  unfolding go_to_page
  go_to_page-IsViewed page_number behavior s h =
      let page = bounded_page (length s.pages) page_number in
      scrolled-IsViewed behavior s.scroll_root (s.elements page) (record s { current_page = page })
        (keeps-IsViewed s (record s { current_page = page }) h refl refl refl)

  fitted-IsNumber :
      IsOrdered W
      → (root : Size) (v : Viewport W) → IsNumber v.width
      → IsNumber v.height
      → IsNumber (fitted_zoom root v)
  unfolding fitted_zoom
  fitted-IsNumber laws root v hw hh =
      let w : max 1 (root.width - 32) ≡ suc (max 1 (root.width - 32) - 1) = omega arith in
      let h : max 1 (root.height - 32) ≡ suc (max 1 (root.height - 32) - 1) = omega arith in
      least-IsNumber laws (n.over (n.whole (max 1 (root.width - 32))) v.width)
        (n.over (n.whole (max 1 (root.height - 32))) v.height)
        (rw w (laws.over_number (max 1 (root.width - 32) - 1) v.width hw))
        (rw h (laws.over_number (max 1 (root.height - 32) - 1) v.height hh))

  -- One step of the zoom, by a button or a key.
  zoomed_out-IsViewed :
      IsOrdered W → (s : Pdf W) → IsViewed s → IsViewed (change_zoom (n.minus s.zoom zoom_step) s)
  zoomed_out-IsViewed laws s h =
      let (_, number) = laws.numbers_of_le min_zoom s.zoom h.zoom.0 in
      zoomed-IsViewed laws (n.minus s.zoom zoom_step) s (laws.minus_number s.zoom number) h

  zoomed_in-IsViewed :
      IsOrdered W → (s : Pdf W) → IsViewed s → IsViewed (change_zoom (n.plus s.zoom zoom_step) s)
  zoomed_in-IsViewed laws s h =
      let (_, number) = laws.numbers_of_le min_zoom s.zoom h.zoom.0 in
      zoomed-IsViewed laws (n.plus s.zoom zoom_step) s (laws.plus_number s.zoom number) h

  key_down-IsViewed :
      IsOrdered W → (key : String) (s : Pdf W) → IsViewed s → IsViewed (key_down key s)
  unfolding key_down
  key_down-IsViewed laws key s h =
      either-IsViewed ((key == "+") || (key == "=")) (change_zoom (n.plus s.zoom zoom_step) s)
        (if key == "-" then change_zoom (n.minus s.zoom zoom_step) s else s)
        (zoomed_in-IsViewed laws s h)
        (either-IsViewed (key == "-") (change_zoom (n.minus s.zoom zoom_step) s) s
          (zoomed_out-IsViewed laws s h) h)

  rotate-IsViewed : (s : Pdf W) → IsViewed s → IsViewed (rotate s)
  unfolding rotate
  rotate-IsViewed s h = record {
    zoom = h.zoom;
    rotation = rotated-IsQuarter s.rotation h.rotation;
    drawn_zoom = h.drawn_zoom;
    drawn_rotation = h.drawn_rotation;
  }

  move_drag-IsViewed :
      (x y : W) (d : Option (PdfDrag W)) (s : Pdf W) → IsViewed s → IsViewed (move_drag x y d s)
  unfolding move_drag
  move_drag-IsViewed x y none s h = h
  move_drag-IsViewed x y (some d) s h = keeps-IsViewed s _ h refl refl refl

  start_dragging-IsViewed :
      (button : ℕ) (on_text : Bool) (x y : W) (s : Pdf W)
      → IsViewed s
      → IsViewed (start_dragging button on_text x y s)
  unfolding start_dragging
  start_dragging-IsViewed button on_text x y s h =
      either-IsViewed (not (eqb button 0) || on_text) s _ h (keeps-IsViewed s _ h refl refl refl)

  reset_view-IsViewed : IsOrdered W → (s : Pdf W) → IsViewed s → IsViewed (reset_view s)
  unfolding reset_view
  reset_view-IsViewed laws s h =
      go_to_page-IsViewed 1 "smooth" (record s { zoom = n.whole 1; rotation = 0 })
        (record {
          zoom = (laws.half_le_one, laws.one_le);
          rotation = (omega arith, omega arith);
          drawn_zoom = h.drawn_zoom;
          drawn_rotation = h.drawn_rotation;
        })

  -- What the PDF library gives for a page: sizes that are numbers.
  abbrev pub GivesNumbers : (Descriptor W → ℕ → Viewport W) → Type ℓ
  GivesNumbers rotated =
      (d : Descriptor W) (rotation : ℕ)
      → IsNumber (rotated d rotation).width × IsNumber (rotated d rotation).height

module _ {ℓ} {W : Type ℓ} ⦃n : Numbers W⦄ (rotated : Descriptor W → ℕ → Viewport W)
    (laws : IsOrdered W) (numbers : GivesNumbers rotated) where
  fit_in-IsViewed :
      (d : Option (Descriptor W)) (root : Option Size) (s : Pdf W)
      → IsViewed s
      → IsViewed (fit_in rotated d root s)
  unfolding fit_in
  fit_in-IsViewed none root s h = h
  fit_in-IsViewed (some d) none s h = h
  fit_in-IsViewed (some d) (some root) s h =
      let (w, l) = numbers d s.rotation in
      zoomed-IsViewed laws (fitted_zoom root (rotated d s.rotation)) s
        (fitted-IsNumber laws root (rotated d s.rotation) w l) h

  fit_current_page-IsViewed : (s : Pdf W) → IsViewed s → IsViewed (fit_current_page rotated s)
  unfolding fit_current_page
  fit_current_page-IsViewed s h = fit_in-IsViewed (current_descriptor s) s.scroll_root s h

  handle-IsViewed : (e : Event W) (s : Pdf W) → IsViewed s → IsViewed (handle rotated e s)
  unfolding handle sharpen stop_dragging register_page
  handle-IsViewed zoom_out s h =
      either-IsViewed (zoom_out_disabled s.zoom) s _ h (zoomed_out-IsViewed laws s h)
  handle-IsViewed zoom_in s h =
      either-IsViewed (zoom_in_disabled s.zoom) s _ h (zoomed_in-IsViewed laws s h)
  handle-IsViewed pressed_reset s h = reset_view-IsViewed laws s h
  handle-IsViewed pressed_fit s h =
      either-IsViewed (no_pages s) s _ h (fit_current_page-IsViewed s h)
  handle-IsViewed pressed_rotate s h = either-IsViewed (no_pages s) s _ h (rotate-IsViewed s h)
  handle-IsViewed pressed_previous s h =
      either-IsViewed (previous_disabled s) s _ h
        (go_to_page-IsViewed (s.current_page - 1) "smooth" s h)
  handle-IsViewed pressed_next s h =
      either-IsViewed (next_disabled s) s _ h
        (go_to_page-IsViewed (s.current_page + 1) "smooth" s h)
  handle-IsViewed sharpened s h = record {
    zoom = h.zoom;
    rotation = h.rotation;
    drawn_zoom = h.zoom;
    drawn_rotation = h.rotation;
  }
  handle-IsViewed pointer_up s h = keeps-IsViewed s _ h refl refl refl
  handle-IsViewed (thumbnail_selected page) s h = go_to_page-IsViewed page "smooth" s h
  handle-IsViewed (next_frame page behavior) s h = go_to_page-IsViewed page behavior s h
  handle-IsViewed (became_visible page) s h = keeps-IsViewed s _ h refl refl refl
  handle-IsViewed (key_pressed key) s h = key_down-IsViewed laws key s h
  handle-IsViewed (pointer_down b t x y) s h = start_dragging-IsViewed b t x y s h
  handle-IsViewed (pointer_moved x y) s h = move_drag-IsViewed x y s.drag s h
  handle-IsViewed (registered page element) s h = keeps-IsViewed s _ h refl refl refl
  handle-IsViewed (scroll_root_set root) s h = keeps-IsViewed s _ h refl refl refl
  handle-IsViewed (loaded pages) s h = keeps-IsViewed s _ h refl refl refl

  handle_each-IsViewed :
      (es : List (Event W)) (s : Pdf W) → IsViewed s → IsViewed (handle_all rotated es s)
  unfolding handle_all
  handle_each-IsViewed [] s h = h
  handle_each-IsViewed (e ∷ es) s h =
      handle_each-IsViewed es (handle rotated e s) (handle-IsViewed e s h)

  -- Numbers that follow the laws of `IsOrdered`, and a PDF library whose sizes are numbers. After any
  -- events from the first render on, the zoom is from 0.5 to 3 and the rotation is 0, 90, 180 or 270
  -- degrees, those chosen and those that the pages are drawn with.
  pub handle_all-IsViewed : (es : List (Event W)) → IsViewed (handle_all rotated es opened)
  handle_all-IsViewed es = handle_each-IsViewed es opened (record {
    zoom = (laws.half_le_one, laws.one_le);
    rotation = (omega arith, omega arith);
    drawn_zoom = (laws.half_le_one, laws.one_le);
    drawn_rotation = (omega arith, omega arith);
  })
