-- ===== src/Preview/Draws.antt =====
-- What happens to one page of a PDF: its picture and its text are drawn, drawn again, and dropped,
-- while earlier drawings of it may still come to their ends.
pub mod Exclusive
use cassist.Prelude.{
  ℕ, zero, suc, ◌≡◌, refl, ap, sym, ◌∙◌, Bool, true, false, not, ◌&&◌, Option, none, some, List, [],
  ◌∷◌, if◌then◌else◌, eqb, is_some, arith, Bool-cases, inl, inr,
}
use cassist.Pool.Count.{down_from}
use cassist.Preview.Numbers.{Numbers}
use cassist.Preview.Load.{Viewport}
use cassist.Preview.Pdf.{RenderView}
use cassist.Preview.Page.{
  Page, Drawing, is_task, cancel_task, settle_render, retry_render, render_page, output_scale,
}
use cassist.Preview.Text.{Text, clean_up_text, start_text, text_arrives}

-- The page, its text, and the zoom and rotation in which it is drawn.
pub record Drawn {ℓ} (W : Type ℓ) : Type ℓ where
  pub page : Page
  pub text : Text
  pub view : RenderView W

-- The observer tells whether the page is near; the view changes; the size on the screen changes;
-- Retry is pressed; the rendering or the text of some run arrives; the page is removed.
pub data Event {ℓ} (W : Type ℓ) : Type ℓ where
  seen : (near : Bool) → Event W
  view_changed : RenderView W → Event W
  resized retried removed : Event W
  rendered : ℕ → Drawing → Event W
  text_arrived : ℕ → Event W

abbrev same : Bool → Bool → Bool
same true b = b
same false b = not b

-- The canvas and the container of the text are there while the page is near.
abbrev pub see : Bool → Page → Page
see near p = record p { near_viewport = near; mounted = near }

-- The container goes with the page.
abbrev pub keep_text : Bool → Text → Text
keep_text near t = record t { shown = if near then t.shown else none }

module _ {ℓ} {W : Type ℓ} ⦃n : Numbers W⦄ (viewport_at : ℕ → W → Viewport W)
    (device_pixel_ratio : W) (has_text_layer : Bool) where
  unfoldable pub handle : Event W → Drawn W → Drawn W
  unfolding render_page cancel_task settle_render retry_render clean_up_text start_text text_arrives
  handle (seen near) d = if same near d.page.near_viewport then d else record d {
    page = render_page viewport_at device_pixel_ratio d.view (see near d.page);
    text = start_text near has_text_layer (keep_text near d.text);
  }
  handle (view_changed view) d = record {
    page = render_page viewport_at device_pixel_ratio view d.page;
    text = d.text;
    view = view;
  }
  handle resized d = record d { text = start_text d.page.near_viewport has_text_layer d.text }
  handle retried d = record d {
    page = render_page viewport_at device_pixel_ratio d.view (retry_render d.page);
  }
  handle removed d = record d { page = cancel_task d.page.task d.page; text = clean_up_text d.text }
  handle (rendered k result) d = record d { page = settle_render k result d.page }
  handle (text_arrived k) d = record d { text = text_arrives k d.text }

  unfoldable pub handle_all : List (Event W) → Drawn W → Drawn W
  unfolding handle
  handle_all [] d = d
  handle_all (event ∷ events) d = handle_all events (handle event d)

-- A page of the document before its effects run.
unfoldable pub unseen {ℓ} : {W : Type ℓ} → RenderView W → Drawn W
unseen view = record {
  page = record {
    near_viewport = false;
    mounted = false;
    render_error = false;
    rendering = false;
    render_attempt = 0;
    canvas_width = 0;
    canvas_height = 0;
    task = none;
    tasks = 0;
    cancelled = [];
  };
  text = record {
    active = none;
    runs = 0;
    layer = none;
    shown = none;
    created = [];
    cancelled = [];
  };
  view = view;
}
