-- ===== src/Preview/Image/Framed.antt =====
-- The bounds of the zoom and of the position of a picture.
use cassist.Prelude.{
  ◌≡◌, ◌⊎◌, inl, inr, refl, Bool, true, false, Option, none, some, List, [], ◌∷◌, if◌then◌else◌,
  Bool-cases,
}
use cassist.Preview.Numbers.{Numbers, IsNumber, IsOrdered, bounded, bounded-IsBetween}
use cassist.Preview.Image.{
  Size, Point, Drag, Image, Event, zoom_out, zoom_in, pressed_reset, pointer_down, pointer_move,
  pointer_up, image_loaded, laid_out, resized, min_zoom, max_zoom, zoom_step, origin, base_width,
  base_height, maximum, clamp_within, clamp_in, clamp_position, reset, change_zoom, drag_to,
  zoom_out_disabled, zoom_in_disabled, handle, handle_all, opened,
}

module _ {ℓ} {W : Type ℓ} ⦃n : Numbers W⦄ where
  clamp_in-centred :
      (client : Option Size) (width height zoom : W) (p : Point W)
      → (n.le zoom (n.whole 1) ≡ false) ⊎ (clamp_in client width height p zoom ≡ origin)
  unfolding clamp_in
  clamp_in-centred none width height zoom p = inr refl
  clamp_in-centred (some client) width height zoom p = elim (Bool-cases (n.le zoom (n.whole 1))) [
    | inl e ↦ inr (rw e refl)
    | inr e ↦ inl e
  ]

  -- The zoom is within its bounds, and a picture that is not enlarged is in the middle.
  pub record IsFramed (s : Image W) : Type ℓ where
    pub lower : n.le min_zoom s.zoom ≡ true
    pub upper : n.le s.zoom max_zoom ≡ true
    pub centred : (n.le s.zoom (n.whole 1) ≡ false) ⊎ (s.position ≡ origin)

  clamp_position-centred :
      (s : Image W) (p : Point W) (zoom : W)
      → (n.le zoom (n.whole 1) ≡ false) ⊎ (clamp_position s p zoom ≡ origin)
  unfolding clamp_position
  clamp_position-centred s p zoom = clamp_in-centred s.client (base_width s) (base_height s) zoom p

  change_zoom-IsFramed :
      IsOrdered W → (next : W) (s : Image W) → IsNumber next → IsFramed (change_zoom next s)
  unfolding change_zoom
  change_zoom-IsFramed laws next s h =
      let (low, high) = bounded-IsBetween laws min_zoom max_zoom next laws.half_le h in
      record {
        lower = low;
        upper = high;
        centred = clamp_position-centred s s.position (bounded min_zoom max_zoom next);
      }

  either-IsFramed :
      (b : Bool) (s t : Image W) → IsFramed s → IsFramed t → IsFramed (if b then s else t)
  either-IsFramed true s t hs ht = hs
  either-IsFramed false s t hs ht = ht

  drag_to-IsFramed :
      (x y : W) (d : Option (Drag W)) (s : Image W) → IsFramed s → IsFramed (drag_to x y d s)
  unfolding drag_to
  drag_to-IsFramed x y none s h = h
  drag_to-IsFramed x y (some d) s h = record {
    lower = h.lower;
    upper = h.upper;
    centred =
        clamp_position-centred s
          (record {
            x = n.minus (n.plus d.start_x x) d.pointer_x;
            y = n.minus (n.plus d.start_y y) d.pointer_y;
          })
          s.zoom;
  }

  same-IsFramed :
      (s t : Image W) → IsFramed s → (t.zoom ≡ s.zoom) → (t.position ≡ s.position) → IsFramed t
  same-IsFramed s t h z p = record {
    lower = rw z h.lower;
    upper = rw z h.upper;
    centred = rw (z, p) h.centred;
  }

  handle-IsFramed : IsOrdered W → (e : Event W) (s : Image W) → IsFramed s → IsFramed (handle e s)
  unfolding handle reset
  handle-IsFramed laws zoom_out s h =
      let (_, number) = laws.numbers_of_le min_zoom s.zoom h.lower in
      either-IsFramed (zoom_out_disabled s.zoom) s (change_zoom (n.minus s.zoom zoom_step) s) h
        (change_zoom-IsFramed laws (n.minus s.zoom zoom_step) s (laws.minus_number s.zoom number))
  handle-IsFramed laws zoom_in s h =
      let (_, number) = laws.numbers_of_le min_zoom s.zoom h.lower in
      either-IsFramed (zoom_in_disabled s.zoom) s (change_zoom (n.plus s.zoom zoom_step) s) h
        (change_zoom-IsFramed laws (n.plus s.zoom zoom_step) s (laws.plus_number s.zoom number))
  handle-IsFramed laws pressed_reset s h = record {
    lower = laws.half_le_one;
    upper = laws.one_le;
    centred = inr refl;
  }
  handle-IsFramed laws (pointer_down x y) s h =
      either-IsFramed (n.le s.zoom (n.whole 1)) s
        (record s {
          drag = some (record {
            pointer_x = x;
            pointer_y = y;
            start_x = s.position.x;
            start_y = s.position.y;
          });
        })
        h (record { lower = h.lower; upper = h.upper; centred = h.centred })
  handle-IsFramed laws (pointer_move x y) s h = drag_to-IsFramed x y s.drag s h
  handle-IsFramed laws pointer_up s h = record {
    lower = h.lower;
    upper = h.upper;
    centred = h.centred;
  }
  handle-IsFramed laws (image_loaded size) s h = record {
    lower = h.lower;
    upper = h.upper;
    centred = h.centred;
  }
  handle-IsFramed laws (laid_out client) s h = record {
    lower = h.lower;
    upper = h.upper;
    centred = h.centred;
  }
  handle-IsFramed laws resized s h = record {
    lower = h.lower;
    upper = h.upper;
    centred = h.centred;
  }

  handle_each-IsFramed :
      IsOrdered W → (es : List (Event W)) (s : Image W) → IsFramed s → IsFramed (handle_all es s)
  unfolding handle_all
  handle_each-IsFramed laws [] s h = h
  handle_each-IsFramed laws (e ∷ es) s h =
      handle_each-IsFramed laws es (handle e s) (handle-IsFramed laws e s h)

  -- Numbers that follow the laws of `IsOrdered`. After any clicks, drags, loads and changes of the
  -- window's size, from the first render on, the zoom of a picture is from 0.5 to 3, and a picture
  -- whose zoom is at most 1 is in the middle.
  pub handle_all-IsFramed : IsOrdered W → (es : List (Event W)) → IsFramed (handle_all es opened)
  handle_all-IsFramed laws es =
      handle_each-IsFramed laws es opened
        (record { lower = laws.half_le_one; upper = laws.one_le; centred = inr refl })

  -- Numbers that follow the laws of `IsOrdered`, maxima and a position that are not NaN: the
  -- position is kept between the negated maxima and the maxima, by which 48 pixels of the picture
  -- stay visible.
  pub clamp_within-maximum :
      IsOrdered W
      → (client : Size) (width height zoom : W) (p : Point W)
      → n.le (n.whole 0) (maximum client.width width zoom) ≡ true
      → n.le (n.whole 0) (maximum client.height height zoom) ≡ true
      → IsNumber p.x
      → IsNumber p.y
      → n.le zoom (n.whole 1) ≡ false
      → let q = clamp_in (some client) width height p zoom in
        ((n.le (n.negated (maximum client.width width zoom)) q.x ≡ true)
          × (n.le q.x (maximum client.width width zoom) ≡ true))
        × ((n.le (n.negated (maximum client.height height zoom)) q.y ≡ true)
            × (n.le q.y (maximum client.height height zoom) ≡ true))
  unfolding clamp_in clamp_within
  clamp_within-maximum laws client width height zoom p mx my hx hy large =
      let a = maximum client.width width zoom in
      let b = maximum client.height height zoom in
      rw large (
        bounded-IsBetween laws (n.negated a) a p.x (laws.negated_le a mx) hx,
        (bounded-IsBetween laws (n.negated b) b p.y (laws.negated_le b my) hy),
      )
