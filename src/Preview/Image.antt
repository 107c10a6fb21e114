-- ===== src/Preview/Image.antt =====
-- `ImagePreview`: zooming and panning a picture.
use cassist.Prelude.{
  ℕ, zero, suc, ◌*◌, ◌≡◌, ◌⊎◌, inl, inr, refl, Bool, true, false, not, Option, none, some, List, [],
  ◌∷◌, All, Message, count, words, if◌then◌else◌, Bool-cases, arith, eqb,
}
use cassist.Preview.Numbers.{Numbers, truthy, bounded}
pub mod Framed

pub record Size : Type 0 where
  pub width : ℕ
  pub height : ℕ

pub record Point {ℓ} (W : Type ℓ) : Type ℓ where
  pub x : W
  pub y : W

-- `drag.current` of the picture
pub record Drag {ℓ} (W : Type ℓ) : Type ℓ where
  pub pointer_x : W
  pub pointer_y : W
  pub start_x : W
  pub start_y : W

-- The place of a value in the document.
pub record Region {ℓ} (W : Type ℓ) : Type ℓ where
  pub x : W
  pub y : W
  pub width : W
  pub height : W

pub record Evidence {ℓ} (W : Type ℓ) : Type ℓ where
  pub page_number : Option ℕ
  pub region : Option (Region W)

-- `client` is the size of the mounted viewport as the browser gives it.
pub record Image {ℓ} (W : Type ℓ) : Type ℓ where
  pub zoom : W
  pub position : Point W
  pub image_size : Size
  pub viewport_size : Size
  pub drag : Option (Drag W)
  pub client : Option Size

pub data Event {ℓ} (W : Type ℓ) : Type ℓ where
  zoom_out : Event W
  zoom_in : Event W
  pressed_reset : Event W
  pointer_down : (client_x client_y : W) → Event W
  pointer_move : (client_x client_y : W) → Event W
  pointer_up : Event W
  image_loaded : Size → Event W
  laid_out : Option Size → Event W
  resized : Event W

unfoldable pub viewport_of : Option Size → Size → Size
viewport_of none old = old
viewport_of (some client) old = client

module _ {ℓ} {W : Type ℓ} ⦃n : Numbers W⦄ where
  abbrev pub min_zoom : W
  min_zoom = n.half

  abbrev pub max_zoom : W
  max_zoom = n.whole 3

  abbrev pub zoom_step : W
  zoom_step = n.quarter

  abbrev pub min_visible_image_pixels : W
  min_visible_image_pixels = n.whole 48

  abbrev pub origin : Point W
  origin = record { x = n.whole 0; y = n.whole 0 }

  unfoldable pub fit_scale : Size → Size → W
  fit_scale image viewport =
      if eqb image.width 0
      then n.whole 1
      else n.least (n.least (n.whole 1) (n.over (n.whole viewport.width) (n.whole image.width)))
          (n.over (n.whole viewport.height) (n.whole image.height))

  unfoldable pub base_width : Image W → W
  unfolding fit_scale
  base_width s = n.times (n.whole s.image_size.width) (fit_scale s.image_size s.viewport_size)

  unfoldable pub base_height : Image W → W
  unfolding fit_scale
  base_height s = n.times (n.whole s.image_size.height) (fit_scale s.image_size s.viewport_size)

  -- `maximumX` and `maximumY`
  unfoldable pub maximum : ℕ → W → W → W
  maximum client base zoom = n.greatest (n.whole 0) (
      n.minus (n.over (n.plus (n.whole client) (n.times base zoom)) (n.whole 2))
        min_visible_image_pixels)

  unfoldable pub clamp_within : W → W → Point W → Point W
  clamp_within maximum_x maximum_y p = record {
    x = bounded (n.negated maximum_x) maximum_x p.x;
    y = bounded (n.negated maximum_y) maximum_y p.y;
  }

  unfoldable pub clamp_in : Option Size → W → W → Point W → W → Point W
  unfolding clamp_within maximum
  clamp_in none width height p zoom = origin
  clamp_in (some client) width height p zoom =
      if n.le zoom (n.whole 1)
      then origin
      else clamp_within (maximum client.width width zoom) (maximum client.height height zoom) p

  unfoldable pub clamp_position : Image W → Point W → W → Point W
  unfolding clamp_in base_width base_height
  clamp_position s p zoom = clamp_in s.client (base_width s) (base_height s) p zoom

  unfoldable pub reset : Image W → Image W
  reset s = record s { zoom = n.whole 1; position = origin }

  unfoldable pub change_zoom : W → Image W → Image W
  unfolding clamp_position
  change_zoom next s =
      let zoom = bounded min_zoom max_zoom next in
      record s { zoom = zoom; position = clamp_position s s.position zoom }

  unfoldable pub drag_to : W → W → Option (Drag W) → Image W → Image W
  unfolding clamp_position
  drag_to client_x client_y none s = s
  drag_to client_x client_y (some drag) s = record s {
    position =
        clamp_position s
          (record {
            x = n.minus (n.plus drag.start_x client_x) drag.pointer_x;
            y = n.minus (n.plus drag.start_y client_y) drag.pointer_y;
          })
          s.zoom;
  }

  abbrev pub zoom_out_disabled : W → Bool
  zoom_out_disabled zoom = n.le zoom min_zoom

  abbrev pub zoom_in_disabled : W → Bool
  zoom_in_disabled zoom = n.le max_zoom zoom

  -- A disabled button does nothing.
  unfoldable pub handle : Event W → Image W → Image W
  unfolding reset change_zoom drag_to viewport_of
  handle zoom_out s =
      if zoom_out_disabled s.zoom then s else change_zoom (n.minus s.zoom zoom_step) s
  handle zoom_in s = if zoom_in_disabled s.zoom then s else change_zoom (n.plus s.zoom zoom_step) s
  handle pressed_reset s = reset s
  handle (pointer_down client_x client_y) s = if n.le s.zoom (n.whole 1) then s else record s {
    drag = some (record {
      pointer_x = client_x;
      pointer_y = client_y;
      start_x = s.position.x;
      start_y = s.position.y;
    });
  }
  handle (pointer_move client_x client_y) s = drag_to client_x client_y s.drag s
  handle pointer_up s = record s { drag = none }
  handle (image_loaded size) s = record s { image_size = size }
  handle (laid_out client) s = record s { client = client }
  handle resized s = record s { viewport_size = viewport_of s.client s.viewport_size }

  unfoldable pub handle_all : List (Event W) → Image W → Image W
  unfolding handle
  handle_all [] s = s
  handle_all (e ∷ es) s = handle_all es (handle e s)

  -- The first render.
  abbrev pub opened : Image W
  opened = record {
    zoom = n.whole 1;
    position = origin;
    image_size = record { width = 0; height = 0 };
    viewport_size = record { width = 0; height = 0 };
    drag = none;
    client = none;
  }

  -- `{Math.round(zoom * 100)}%`
  unfoldable pub zoom_label : W → Message
  zoom_label zoom = count (n.rounded (n.times zoom (n.whole 100))) ∷ words "%" ∷ []

  unfoldable pub grabbable : Image W → Bool
  grabbable s = n.lt (n.whole 1) s.zoom

  -- `baseWidth || "100%"`, where `none` is the whole
  unfoldable pub frame_side : W → Option W
  frame_side base = if truthy base then some base else none

  abbrev pub percent : W → ℕ → W
  percent part whole = n.times (n.over part (n.whole whole)) (n.whole 100)

  -- The highlighted region, in hundredths of the picture's sides.
  unfoldable pub image_highlight : Option (Evidence W) → Size → Option (Region W)
  image_highlight none size = none
  image_highlight (some e) size = go e.region
    where
      go : Option (Region W) → Option (Region W)
      go none = none
      go (some r) =
          if eqb size.width 0
          then none
          else some (record {
            x = percent r.x size.width;
            y = percent r.y size.height;
            width = percent r.width size.width;
            height = percent r.height size.height;
          })
