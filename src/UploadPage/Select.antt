-- ===== src/UploadPage/Select.antt =====
-- Which files upload-page.jsx takes for an upload.
use cassist.Prelude.{
  ℕ, suc, ◌+◌, ◌≤◌, ◌<◌, ◌≡◌, ◌↔◌, ◌⊎◌, inl, inr, refl, ap, true, false, none, some, List, [], ◌∷◌,
  ltb, has, is_some, length, arith, Bool-cases,
}
use cassist.Api.Upload.{File, upload_mime_type}
use cassist.UploadPage.{
  Capabilities, Item, Selection, validate_file, new_items, invalid_count, select_files, pending,
}

-- A file that the server would take: of an accepted type, not empty and not too large.
pub record IsAcceptable (c : Capabilities) (file : File) : Type 0 where
  pub accepted : has (upload_mime_type file) c.accepted_mime_types ≡ true
  pub small : file.size ≤ c.maximum_file_bytes
  pub filled : 1 ≤ file.size

validated :
    (file : File) (c : Capabilities) → is_some (validate_file file c) ≡ false → IsAcceptable c file
unfolding validate_file
validated file c h = record { accepted = ground arith; small = ground arith; filled = ground arith }

valid : (file : File) (c : Capabilities) → IsAcceptable c file → validate_file file c ≡ none
unfolding validate_file
valid file c h = ground (arith, h.accepted, h.small, h.filled)

-- The items for `files` from the number `n` on: each file has one item, in its place and under its
-- number, and only acceptable files are without an error.
abbrev pub AreItemsOf : Capabilities → ℕ → List File → List Item → Type 0
AreItemsOf c n [] [] = Unit
AreItemsOf c n (file ∷ files) (item ∷ items) =
    (item.file ≡ file)
    × (item.id.index ≡ n)
    × (item.result ≡ none)
    × (item.validation_error ≡ none ↔ IsAcceptable c file)
    × AreItemsOf c (suc n) files items
AreItemsOf c n _ _ = ⊥

new_items-AreItemsOf :
    (c : Capabilities) (n : ℕ) (files : List File) → AreItemsOf c n files (new_items c n files)
unfolding new_items
new_items-AreItemsOf c n [] = tt
new_items-AreItemsOf c n (file ∷ files) = (
  refl,
  refl,
  refl,
  ((λ h. validated file c (ap is_some h)), valid file c),
  new_items-AreItemsOf c (suc n) files,
)

pending-new_items :
    (c : Capabilities) (n : ℕ) (files : List File)
    → length (pending (new_items c n files)) + invalid_count c files ≡ length files
unfolding pending new_items invalid_count
pending-new_items c n [] = omega arith
pending-new_items c n (file ∷ files) = ground (arith, pending-new_items c (suc n) files)

-- The capabilities are known and some files are chosen. If they are more than one batch may have,
-- the page has no items after `selectFiles`, and says why. Else it has one item for each file, in
-- order and numbered; just the acceptable files have no validation error; and it shows an error if
-- and only if a file is left out.
pub select_files-AreItemsOf :
    (files : List File) (c : Capabilities) (s : Selection)
    → 1 ≤ length files
    → (let t = select_files files (some c) s in
        ((c.maximum_batch_files < length files) × (t.items ≡ []) × (is_some t.error ≡ true))
        ⊎ ((length files ≤ c.maximum_batch_files)
            × AreItemsOf c 0 files t.items
            × (t.error ≡ none ↔ length (pending t.items) ≡ length files)))
unfolding select_files
select_files-AreItemsOf [] c s h = absurd (ground arith)
select_files-AreItemsOf (f ∷ fs) c s h =
    elim (Bool-cases (ltb c.maximum_batch_files (length (f ∷ fs)))) [
      | inl e ↦ inl (ground arith, rw e refl, rw e refl)
      | inr e ↦ inr (
        ground arith,
        rw e (new_items-AreItemsOf c 0 (f ∷ fs)),
        rw e (
          (λ h. ground (arith, pending-new_items c 0 (f ∷ fs))),
          λ h. ground (arith, pending-new_items c 0 (f ∷ fs)),
        ),
      )
    ]
