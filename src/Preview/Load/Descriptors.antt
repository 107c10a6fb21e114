-- ===== src/Preview/Load/Descriptors.antt =====
-- The pages of a loaded document are numbered from 1.
use cassist.Prelude.{ℕ, zero, suc, ◌+◌, ◌<◌, ◌≡◌, refl, ap, some, length, get_elem?, arith}
use cassist.Preview.Load.{Viewport, Descriptor, descriptors_from, descriptors}

module _ {ℓ} {W : Type ℓ} where
  abbrev pub numbered : (ℕ → Viewport W) → ℕ → Descriptor W
  numbered get_page k = record {
    page_number = k;
    width = (get_page k).width;
    height = (get_page k).height;
  }

  get_elem?-descriptors_from :
      (get_page : ℕ → Viewport W) (start more i : ℕ)
      → i < more
      → get_elem? (descriptors_from get_page start more) i
        ≡ some (numbered get_page (start + i + 1))
  unfolding descriptors_from
  get_elem?-descriptors_from get_page start zero i h = elim h [ ]
  get_elem?-descriptors_from get_page start (suc more) zero h =
      let e : start + 0 + 1 ≡ start + 1 = omega arith in rw e refl
  get_elem?-descriptors_from get_page start (suc more) (suc i) h =
      let e : start + suc i + 1 ≡ suc start + i + 1 = omega arith in
      rw e (get_elem?-descriptors_from get_page (suc start) more i (omega arith))

  length-descriptors_from :
      (get_page : ℕ → Viewport W) (start more : ℕ)
      → length (descriptors_from get_page start more) ≡ more
  unfolding descriptors_from
  length-descriptors_from get_page start zero = refl
  length-descriptors_from get_page start (suc more) =
      ap suc (length-descriptors_from get_page (suc start) more)

  -- A loaded document has a descriptor for each of its pages.
  pub length-descriptors :
      (get_page : ℕ → Viewport W) (num_pages : ℕ)
      → length (descriptors get_page num_pages) ≡ num_pages
  unfolding descriptors
  length-descriptors get_page num_pages = length-descriptors_from get_page 0 num_pages

  -- The descriptor at a place is that of the page numbered one more.
  pub get_elem?-descriptors :
      (get_page : ℕ → Viewport W) (num_pages i : ℕ)
      → i < num_pages
      → get_elem? (descriptors get_page num_pages) i ≡ some (numbered get_page (suc i))
  unfolding descriptors
  get_elem?-descriptors get_page num_pages i h =
      let e : 0 + i + 1 ≡ suc i = omega arith in
      rw (← e) (get_elem?-descriptors_from get_page 0 num_pages i h)
