-- ===== src/Preview/Text.antt =====
-- The text layer of `PdfPage`: the effect that lays a page's text over its picture.
use cassist.Prelude.{ℕ, suc, Bool, not, ◌&&◌, Option, none, some, List, ◌∷◌, if◌then◌else◌, is_some}
use cassist.Preview.Page.{is_task}

-- `active` is the latest run of the effect while it is active, and `layer` the one whose text layer
-- it has. `shown` is the run whose text stands in the container, and `created` and `cancelled` have
-- the runs whose layers were made and cancelled, the latest first.
pub record Text : Type 0 where
  pub active : Option ℕ
  pub runs : ℕ
  pub layer : Option ℕ
  pub shown : Option ℕ
  pub created : List ℕ
  pub cancelled : List ℕ

-- `textLayer?.cancel()`
abbrev pub with_layer : Option ℕ → List ℕ → List ℕ
with_layer none cancelled = cancelled
with_layer (some k) cancelled = k ∷ cancelled

-- The clean-up of the effect: `active = false` and `textLayer?.cancel()`.
unfoldable pub clean_up_text : Text → Text
clean_up_text t = record t {
  active = none;
  layer = none;
  cancelled = with_layer t.layer t.cancelled;
}

-- The effect after the clean-up of the run before, up to its `await`: whether the page is near,
-- with its container there, and whether the library has text layers.
unfoldable pub start_text : (near has_text_layer : Bool) → Text → Text
unfolding clean_up_text
start_text near has_text_layer t =
    let u = clean_up_text t in
    if near && has_text_layer then record u { active = some u.runs; runs = suc u.runs } else u

-- The text content of the run `k` arrives. It arrives once, so that the run has no layer yet.
unfoldable pub text_arrives : ℕ → Text → Text
text_arrives k t =
    if is_task t.active k && not (is_some t.layer)
    then record t { layer = some k; shown = some k; created = k ∷ t.created }
    else t
