-- ===== src/Tests/Viewer.antt =====
-- The previews with whole numbers of quarters for JavaScript's numbers.
use cassist.Prelude.{true, ℕ, ◌≡◌, refl, some, List, [], ◌∷◌, arith}
use cassist.Preview.Numbers.{Quarters, pos, quarters_numbers, Quarters-IsOrdered}
use cassist.Preview.Image
use cassist.Preview.Image.{Size, Point, Image, origin}
use cassist.Preview.Image.Framed.{IsFramed, handle_all-IsFramed}
use cassist.Preview.Load.{
  Viewport, Descriptor, Load, descriptors, unloaded, start_load, continue_load, end_load, Reachable,
  begins, steps, restarts, continues, ends,
}
use cassist.Preview.Load.Refinement.{Refines, ready, Reachable-Refines}
use cassist.Preview.Draws
use cassist.Preview.Draws.Exclusive.{IsDrawn, handle_all-IsDrawn}
use cassist.Preview.Page.{drawn}
use cassist.Preview.Pdf.{RenderView}
use cassist.Preview.Pdf.Events
use cassist.Preview.Pdf.Events.{Event, zoom_in, pressed_rotate, pressed_fit, pressed_next, opened}
use cassist.Preview.Pdf.Bounds.{IsViewed, handle_all-IsViewed}
use cassist.Preview.Pdf.Pages.{IsOnPage, handle_all-IsOnPage}
use cassist.Preview.Pdf.Visible.{Ratio, IsMostVisible, visible_page, visible_page-IsMostVisible}

-- An enlarged picture that is dragged, and is then made small again.
abbrev image_events : List (Image.Event Quarters)
image_events =
    Image.laid_out (some (record { width = 400; height = 300 }))
    ∷ Image.resized
    ∷ Image.image_loaded (record { width = 200; height = 100 })
    ∷ Image.zoom_in
    ∷ Image.zoom_in
    ∷ Image.pointer_down (pos 0) (pos 0)
    ∷ Image.pointer_move (pos 4000) (pos 8)
    ∷ Image.pointer_up
    ∷ Image.zoom_out
    ∷ []

handle_all-IsFramed_example : IsFramed (Image.handle_all image_events Image.opened)
handle_all-IsFramed_example = handle_all-IsFramed Quarters-IsOrdered image_events

-- The second attempt replaces the first, which ends late.
abbrev replaced : Load ℕ
replaced =
    end_load 1 7
      (end_load 2 5 (continue_load 2 (start_load (continue_load 1 (start_load (unloaded 0))))))

replaced-Reachable : Reachable 0 replaced
unfolding start_load continue_load end_load
replaced-Reachable =
    steps
      (steps
        (steps (steps (steps begins (continues 1 (λ e. refl))) restarts) (continues 2 (λ e. refl)))
        (ends 2 5 (λ e. refl)))
      (ends 1 7 (λ e. absurd (omega arith)))

Reachable-Refines_example : Refines replaced (ready 2 5)
unfolding replaced-Reachable
Reachable-Refines_example = Reachable-Refines 0 replaced replaced-Reachable

abbrev three_pages : List (Descriptor Quarters)
three_pages = descriptors (λ _. record { width = pos 2400; height = pos 3200 }) 3

abbrev turned : Descriptor Quarters → ℕ → Viewport Quarters
turned d rotation = record { width = pos 2400; height = pos 3200 }

abbrev pdf_events : List (Event Quarters)
pdf_events =
    Events.loaded three_pages
    ∷ Events.scroll_root_set (some (record { width = 900; height = 700 }))
    ∷ zoom_in
    ∷ pressed_rotate
    ∷ Events.sharpened
    ∷ pressed_fit
    ∷ pressed_next
    ∷ []

handle_all-IsViewed_example : IsViewed (Events.handle_all turned pdf_events opened)
handle_all-IsViewed_example =
    handle_all-IsViewed turned Quarters-IsOrdered (λ d rotation. (refl, refl)) pdf_events

handle_all-IsOnPage_example :
    IsOnPage 3 (Events.handle_all turned pdf_events (record opened { pages = three_pages }))
unfolding descriptors
handle_all-IsOnPage_example =
    handle_all-IsOnPage turned 3 pdf_events (record opened { pages = three_pages })
      (refl, (tt, (tt, (tt, (tt, (tt, (tt, tt)))))))
      (record { size = refl; first = omega arith; last = omega arith })

abbrev visibility : List (Ratio Quarters)
visibility =
    record { page_number = 1; ratio = pos 1 }
    ∷ record { page_number = 2; ratio = pos 3 }
    ∷ record { page_number = 3; ratio = pos 0 }
    ∷ []

visible_page-IsMostVisible_example : IsMostVisible visibility (visible_page visibility)
visible_page-IsMostVisible_example =
    visible_page-IsMostVisible Quarters-IsOrdered visibility (refl, (refl, (refl, tt)))

-- The second page is the current one.
second_visible : visible_page visibility ≡ some 2
unfolding visible_page
second_visible = refl

-- A page that is seen and drawn again; the text of its first run comes too late.
abbrev page_events : List (Draws.Event Quarters)
page_events =
    Draws.seen true
    ∷ Draws.resized
    ∷ Draws.text_arrived 0
    ∷ Draws.retried
    ∷ Draws.rendered 0 drawn
    ∷ Draws.text_arrived 1
    ∷ []

abbrev page_viewport : ℕ → Quarters → Viewport Quarters
page_viewport rotation scale = record { width = pos 2400; height = pos 3200 }

abbrev first_view : RenderView Quarters
first_view = record { rotation = 0; zoom = pos 4 }

handle_all-IsDrawn_example :
    IsDrawn (Draws.handle_all page_viewport (pos 4) true page_events (Draws.unseen first_view))
handle_all-IsDrawn_example = handle_all-IsDrawn page_viewport (pos 4) true page_events first_view
