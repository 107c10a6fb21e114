-- ===== src/Preview/Pdf/Events.antt =====
-- The events of the viewer of a PDF.
use cassist.Prelude.{ℕ, ◌+◌, ◌-◌, String, Bool, Option, none, List, [], ◌∷◌, if◌then◌else◌}
use cassist.Preview.Numbers.{Numbers}
use cassist.Preview.Image.{Size, zoom_step, zoom_in_disabled, zoom_out_disabled}
use cassist.Preview.Load.{Viewport, Descriptor}
use cassist.Preview.Pdf.{
  Pdf, change_zoom, register_page, go_to_page, fit_current_page, rotate, reset_view, sharpen,
  no_pages, previous_disabled, next_disabled, start_dragging, move_drag, stop_dragging, key_down,
}

-- What happens to the viewer: its buttons, the frames that scroll to a page, the page found visible,
-- the timer of the sharp rendering, the keyboard, the pointer, and the loads.
pub data Event {ℓ} (W : Type ℓ) : Type ℓ where
  zoom_out zoom_in pressed_reset pressed_fit pressed_rotate : Event W
  pressed_previous pressed_next sharpened pointer_up : Event W
  thumbnail_selected : (page_number : ℕ) → Event W
  next_frame : (page_number : ℕ) (behavior : String) → Event W
  became_visible : (page_number : ℕ) → Event W
  key_pressed : (key : String) → Event W
  pointer_down : (button : ℕ) (on_text : Bool) (client_x client_y : W) → Event W
  pointer_moved : (client_x client_y : W) → Event W
  registered : (page_number : ℕ) (element : Option W) → Event W
  scroll_root_set : Option Size → Event W
  loaded : List (Descriptor W) → Event W

module _ {ℓ} {W : Type ℓ} ⦃n : Numbers W⦄ where
  -- The first render.
  abbrev pub opened : Pdf W
  opened = record {
    pages = [];
    zoom = n.whole 1;
    rotation = 0;
    render_view = record { rotation = 0; zoom = n.whole 1 };
    current_page = 1;
    scroll_root = none;
    elements = λ _. none;
    drag = none;
    left = n.whole 0;
    top = n.whole 0;
    scrolls = [];
  }

module _ {ℓ} {W : Type ℓ} ⦃n : Numbers W⦄ (rotated : Descriptor W → ℕ → Viewport W) where
  -- A disabled button does nothing.
  unfoldable pub handle : Event W → Pdf W → Pdf W
  unfolding change_zoom register_page go_to_page fit_current_page rotate reset_view sharpen no_pages
      previous_disabled next_disabled start_dragging move_drag stop_dragging key_down
  handle zoom_out s =
      if zoom_out_disabled s.zoom then s else change_zoom (n.minus s.zoom zoom_step) s
  handle zoom_in s = if zoom_in_disabled s.zoom then s else change_zoom (n.plus s.zoom zoom_step) s
  handle pressed_reset s = reset_view s
  handle pressed_fit s = if no_pages s then s else fit_current_page rotated s
  handle pressed_rotate s = if no_pages s then s else rotate s
  handle pressed_previous s =
      if previous_disabled s then s else go_to_page (s.current_page - 1) "smooth" s
  handle pressed_next s = if next_disabled s then s else go_to_page (s.current_page + 1) "smooth" s
  handle sharpened s = sharpen s
  handle pointer_up s = stop_dragging s
  handle (thumbnail_selected page_number) s = go_to_page page_number "smooth" s
  handle (next_frame page_number behavior) s = go_to_page page_number behavior s
  handle (became_visible page_number) s = record s { current_page = page_number }
  handle (key_pressed key) s = key_down key s
  handle (pointer_down button on_text client_x client_y) s =
      start_dragging button on_text client_x client_y s
  handle (pointer_moved client_x client_y) s = move_drag client_x client_y s.drag s
  handle (registered page_number element) s = register_page page_number element s
  handle (scroll_root_set root) s = record s { scroll_root = root }
  handle (loaded pages) s = record s { pages = pages }

  unfoldable pub handle_all : List (Event W) → Pdf W → Pdf W
  unfolding handle
  handle_all [] s = s
  handle_all (e ∷ es) s = handle_all es (handle e s)
