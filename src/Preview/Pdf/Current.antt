-- ===== src/Preview/Pdf/Current.antt =====
-- The page that is fitted to the viewer is the current one.
use cassist.Prelude.{ℕ, suc, ◌-◌, ◌<◌, ◌≡◌, ap, ◌∙◌, some, arith, eqb, false}
use cassist.Preview.Numbers.{Numbers}
use cassist.Preview.Load.{Viewport, descriptors}
use cassist.Preview.Load.Descriptors.{numbered, get_elem?-descriptors}
use cassist.Preview.Pdf.{Pdf, current_descriptor}
use cassist.Preview.Pdf.Pages.{IsOnPage}

module _ {ℓ} {W : Type ℓ} ⦃n : Numbers W⦄ where
  -- The pages are those of a loaded document and the current page is one of them. Then the descriptor
  -- that "Fit page" reads is that of the current page.
  pub current_descriptor-numbered :
      (get_page : ℕ → Viewport W) (pages : ℕ) (s : Pdf W)
      → IsOnPage pages s
      → s.pages ≡ descriptors get_page pages
      → current_descriptor s ≡ some (numbered get_page s.current_page)
  unfolding current_descriptor
  current_descriptor-numbered get_page pages s h same =
      let inside : s.current_page - 1 < pages = omega (arith, h.first, h.last) in
      let back : suc (s.current_page - 1) ≡ s.current_page = omega (arith, h.first) in
      let positive : eqb s.current_page 0 ≡ false = ground (arith, h.first) in
      rw (positive, same)
        (get_elem?-descriptors get_page pages (s.current_page - 1) inside
          ∙ ap (λ k. some (numbered get_page k)) back)
