-- ===== src/Preview/Page.antt =====
-- `PdfPage` and `PdfThumbnail`: drawing one page of a PDF, and the region highlighted on it.
use cassist.Prelude.{
  ℕ, suc, String, Bool, true, false, not, ◌&&◌, Option, none, some, List, ◌∷◌, if◌then◌else◌, eqb,
  ◌==◌,
}
use cassist.Preview.Numbers.{Numbers, truthy}
use cassist.Preview.Image.{Region, Evidence}
use cassist.Preview.Load.{Viewport, Descriptor}
use cassist.Preview.Pdf.{RenderView}

-- The sizes of the canvas, and the error and the wait that are shown; `task` is the latest rendering
-- while it is active, `cancelled` those cancelled, the latest first, and `mounted` says that the
-- canvas is there.
pub record Page : Type 0 where
  pub near_viewport : Bool
  pub mounted : Bool
  pub render_error : Bool
  pub rendering : Bool
  pub render_attempt : ℕ
  pub canvas_width : ℕ
  pub canvas_height : ℕ
  pub task : Option ℕ
  pub tasks : ℕ
  pub cancelled : List ℕ

unfoldable pub is_task : Option ℕ → ℕ → Bool
is_task none k = false
is_task (some task) k = eqb task k

-- The clean-up of the rendering effect.
unfoldable pub cancel_task : Option ℕ → Page → Page
cancel_task none p = p
cancel_task (some k) p = record p { task = none; cancelled = k ∷ p.cancelled }

-- How a rendering ended: drawn, or rejected with an error that may have a name.
pub data Drawing : Type 0 where
  drawn : Drawing
  rejected : (name : Option String) → Drawing

-- `error?.name !== "RenderingCancelledException"`
unfoldable pub is_render_error : Drawing → Bool
is_render_error drawn = false
is_render_error (rejected none) = true
is_render_error (rejected (some name)) = not (name == "RenderingCancelledException")

-- The `catch` and the `finally` of the rendering `k`.
unfoldable pub settle_render : ℕ → Drawing → Page → Page
unfolding is_task is_render_error
settle_render k result p =
    if is_task p.task k
    then record p {
      render_error = if is_render_error result then true else p.render_error;
      rendering = false;
    }
    else p

-- `setRenderAttempt`, the button's; the effect follows.
unfoldable pub retry_render : Page → Page
retry_render p = record p { render_attempt = suc p.render_attempt }

-- `activeEvidence?.pageNumber === descriptor.pageNumber`
unfoldable pub is_evidence_page : Option ℕ → ℕ → Bool
is_evidence_page none page_number = false
is_evidence_page (some k) page_number = eqb k page_number

module _ {ℓ} {W : Type ℓ} ⦃n : Numbers W⦄ where
  -- `Math.min(window.devicePixelRatio || 1, 2)`
  unfoldable pub output_scale : W → W
  output_scale device_pixel_ratio =
      n.least (if truthy device_pixel_ratio then device_pixel_ratio else n.whole 1) (n.whole 2)

  -- The rendering effect, after the clean-up of the one before. `viewport_at` is the library's
  -- `getViewport` of the page, by its rotation and scale.
  unfoldable pub render_page : (ℕ → W → Viewport W) → W → RenderView W → Page → Page
  unfolding output_scale cancel_task
  render_page viewport_at device_pixel_ratio view p =
      let q = cancel_task p.task p in
      let viewport =
        viewport_at view.rotation (n.times view.zoom (output_scale device_pixel_ratio)) in
      if q.near_viewport && q.mounted
      then record q {
        canvas_width = n.ceiled viewport.width;
        canvas_height = n.ceiled viewport.height;
        render_error = false;
        rendering = true;
        task = some q.tasks;
        tasks = suc q.tasks;
      }
      else q

  unfoldable pub highlighted : Option (Evidence W) → Descriptor W → Bool
  unfolding is_evidence_page
  highlighted none d = false
  highlighted (some e) d = is_evidence_page e.page_number d.page_number

  unfoldable pub has_region : Option (Evidence W) → Option (Region W)
  has_region none = none
  has_region (some e) = e.region

  unfoldable pub scaled : W → Option (Region W) → Option (Region W)
  scaled scale none = none
  scaled scale (some r) = some (record {
    x = n.times r.x scale;
    y = n.times r.y scale;
    width = n.times r.width scale;
    height = n.times r.height scale;
  })

  -- The region that is drawn on a page, with `evidenceScale`.
  unfoldable pub page_highlight :
      Option (Evidence W) → Descriptor W → (rotation : ℕ) → (zoom : W) → Option (Region W)
  unfolding highlighted has_region scaled
  page_highlight e d rotation zoom =
      if highlighted e d && eqb rotation 0
      then scaled (n.over zoom (n.whole 2)) (has_region e)
      else none

  unfoldable pub is_none : Option (Region W) → Bool
  is_none none = true
  is_none (some r) = false

  -- The ring round a page whose evidence has no region.
  unfoldable pub ringed : Option (Evidence W) → Descriptor W → Bool
  unfolding highlighted has_region is_none
  ringed e d = highlighted e d && is_none (has_region e)

  -- The scale of a page's thumbnail
  unfoldable pub thumbnail_scale : Descriptor W → W
  thumbnail_scale d = n.over (n.whole 72) d.width

-- `canvas.width` and `canvas.height` of a thumbnail
unfoldable pub thumbnail_canvas {ℓ} :
    {W : Type ℓ} ⦃n : Numbers W⦄ → (W → Viewport W) → Descriptor W → ℕ × ℕ
unfolding thumbnail_scale
thumbnail_canvas ⦃n⦄ viewport_at d =
    let viewport = viewport_at (thumbnail_scale d) in
    (n.ceiled viewport.width, n.ceiled viewport.height)
