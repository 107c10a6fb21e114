-- ===== src/Review/Selection.antt =====
-- The selection for the export on review-page.jsx.
use cassist.Prelude.{
  eqb, suc, ◌-◌, ◌≤◌, ◌<◌, ◌≡◌, ◌↔◌, refl, ap, ◌∙◌, inl, inr, String, Bool, true, false, not, ◌&&◌,
  ◌||◌, Option, List, [], ◌∷◌, eq_iff, eq_refl, if◌then◌else◌, has, add, delete, has-add,
  has-delete, IsNodup, filter, length, any, Bool-cases, arith, or_false,
}
use cassist.Review.{
  effective, ordered_draft, selection_is_dirty, set_section_selected, set_each,
  section_selected_count, section_checkbox, Pending, approve_disabled, save_selection_disabled,
}

-- `xs` is a part of `ys`, as sets.
abbrev pub IsPart : List String → List String → Type 0
IsPart xs ys = (id : String) → has id xs ≡ true → has id ys ≡ true

length-delete_le : (x : String) (ys : List String) → length (delete x ys) ≤ length ys
unfolding delete
length-delete_le x [] = omega arith
length-delete_le x (y ∷ ys) = ground (arith, length-delete_le x ys)

length-delete : (x : String) (ys : List String) → has x ys ≡ true → length (delete x ys) < length ys
unfolding delete
length-delete x [] h = ground arith
length-delete x (y ∷ ys) h = ground (arith, length-delete x ys, length-delete_le x ys)

module _ (x : String) (xs ys : List String) (fresh : has x xs ≡ false)
    (part : IsPart (x ∷ xs) ys) where
  IsPart-rest : IsPart xs (delete x ys)
  IsPart-rest id h = has-delete id x ys ∙ ground (arith, eq_iff x id, part id (ground arith))

-- A list without repetitions is no longer than one that it is a part of.
length_le_of_part : (xs ys : List String) → IsNodup xs → IsPart xs ys → length xs ≤ length ys
length_le_of_part [] ys nodup part = omega arith
length_le_of_part (x ∷ xs) ys (fresh, nodup) part = omega (
  arith,
  length_le_of_part xs (delete x ys) nodup (IsPart-rest x xs ys fresh part),
  length-delete x ys (part x (rw (eq_refl x) refl)),
)

-- A part without repetitions that is as long as the whole is all of it.
IsPart-of_length :
    (xs ys : List String) → IsNodup xs → IsPart xs ys → length ys ≤ length xs → IsPart ys xs
IsPart-of_length [] [] nodup part h id e = e
IsPart-of_length [] (y ∷ ys) nodup part h id e = absurd (ground arith)
IsPart-of_length (x ∷ xs) ys (fresh, nodup) part h id e = ground (
  arith,
  eq_iff x id,
  has-delete id x ys,
  IsPart-of_length xs (delete x ys) nodup (IsPart-rest x xs ys fresh part)
      (omega (arith, length-delete x ys (part x (rw (eq_refl x) refl)))) id,
)

has-ordered_draft :
    (id : String) (targets excluded : List String)
    → has id (ordered_draft targets excluded) ≡ (has id targets && has id excluded)
unfolding ordered_draft
has-ordered_draft id [] excluded = refl
has-ordered_draft id (t ∷ ts) excluded =
    ground (arith, has-ordered_draft id ts excluded, eq_iff t id)

IsNodup-ordered_draft :
    (targets excluded : List String) → IsNodup targets → IsNodup (ordered_draft targets excluded)
unfolding ordered_draft
IsNodup-ordered_draft [] excluded h = tt
IsNodup-ordered_draft (t ∷ ts) excluded (fresh, h) = elim (Bool-cases (has t excluded)) [
  | inl e ↦
      rw e (has-ordered_draft t ts excluded ∙ rw fresh refl, IsNodup-ordered_draft ts excluded h)
  | inr e ↦ rw e (IsNodup-ordered_draft ts excluded h)
]

any_missing : (xs ys : List String) → any (λ id. not (has id ys)) xs ≡ false → IsPart xs ys
any_missing [] ys h id e = ground arith
any_missing (x ∷ xs) ys h id e = ground (arith, eq_iff x id, any_missing xs ys (ground arith) id)

none_missing : (xs ys : List String) → IsPart xs ys → any (λ id. not (has id ys)) xs ≡ false
none_missing [] ys h = refl
none_missing (x ∷ xs) ys h =
    rw (h x (rw (eq_refl x) refl)) (none_missing xs ys (λ id e. h id (ground arith)))

-- The targets of the page are distinct, and so are the saved exclusions. Then the selection counts as
-- changed if and only if the exclusions that the page would send differ, as a set, from those that
-- are saved.
pub selection_is_dirty_iff :
    (targets excluded saved : List String)
    → IsNodup targets
    → IsNodup saved
    → (selection_is_dirty (ordered_draft targets excluded) saved ≡ false) ↔ (
        IsPart (ordered_draft targets excluded) saved
        × IsPart saved (ordered_draft targets excluded))
unfolding selection_is_dirty
selection_is_dirty_iff targets excluded saved nodup nodup_saved =
    let ordered = ordered_draft targets excluded in
    let nodup_ordered = IsNodup-ordered_draft targets excluded nodup in
    (
      (λ h.
          let long : length saved ≤ length ordered = ground arith in
          let part = any_missing ordered saved (ground arith) in
          (part, IsPart-of_length ordered saved nodup_ordered part long)),
      λ (part, whole).
          let a = length_le_of_part ordered saved nodup_ordered part in
          let b = length_le_of_part saved ordered nodup_saved whole in
          ground (arith, none_missing ordered saved part),
    )

has-set_each :
    (ids : List String) (selected : Bool) (id : String) (s : List String)
    → has id (set_each ids selected s)
      ≡ (if selected then not (has id ids) && has id s else has id ids || has id s)
has-set_each [] true id s = refl
has-set_each [] false id s = refl
has-set_each (x ∷ xs) true id s =
    ground (arith, has-set_each xs true id (delete x s), has-delete id x s, eq_iff x id)
has-set_each (x ∷ xs) false id s =
    ground (arith, has-set_each xs false id (add x s), has-add id x s, eq_iff x id)

none_selected :
    (ids excluded : List String) → IsPart ids excluded → section_selected_count ids excluded ≡ 0
unfolding section_selected_count
none_selected [] excluded h = refl
none_selected (x ∷ xs) excluded h =
    rw (h x (rw (eq_refl x) refl)) (none_selected xs excluded (λ id e. h id (ground arith)))

all_selected :
    (ids excluded : List String)
    → ((id : String) → has id ids ≡ true → has id excluded ≡ false)
    → section_selected_count ids excluded ≡ length ids
unfolding section_selected_count
all_selected [] excluded h = refl
all_selected (x ∷ xs) excluded h =
    rw (h x (rw (eq_refl x) refl)) (ap suc (all_selected xs excluded (λ id e. h id (ground arith))))

-- For every section: ticking it takes all its targets into the export, clearing it takes them all
-- out, and no other target changes. The section's box is then ticked in the one case; in the
-- other it is not half ticked, and is ticked only if the section has no target.
pub set_section_selected-section_checkbox :
    (ids saved : List String) (current : Option (List String))
    → (let on = set_section_selected ids true saved current in
        let off = set_section_selected ids false saved current in
        let before = effective current saved in
        ((id : String) → has id on ≡ (not (has id ids) && has id before))
        × ((id : String) → has id off ≡ (has id ids || has id before))
        × ((section_checkbox (section_selected_count ids on) (length ids)).checked ≡ true)
        × ((section_checkbox (section_selected_count ids off) (length ids)).checked
            ≡ eqb (length ids) 0)
        × ((section_checkbox (section_selected_count ids off) (length ids)).indeterminate ≡ false))
unfolding set_section_selected section_checkbox
set_section_selected-section_checkbox ids saved current =
    let before = effective current saved in
    let full =
      all_selected ids (set_each ids true before)
        (λ id h. has-set_each ids true id before ∙ rw h refl) in
    let empty =
      none_selected ids (set_each ids false before)
        (λ id h. has-set_each ids false id before ∙ rw h refl) in
    (
      (λ id. has-set_each ids true id before),
      (λ id. has-set_each ids false id before),
      ground (arith, full),
      ground (arith, empty),
      ground (arith, empty),
    )

-- The targets of the page and the saved exclusions are distinct. Where "Approve" is enabled, no
-- request that changes the result is pending, and a target of the page is left out of the approved
-- export if and only if the page shows it as left out.
pub approve-AsShown :
    (pending : Pending) (targets excluded saved : List String)
    → IsNodup targets
    → IsNodup saved
    → approve_disabled pending (selection_is_dirty (ordered_draft targets excluded) saved) ≡ false
    → (pending.review ≡ false)
      × (pending.correction ≡ false)
      × (pending.selection ≡ false)
      × ((id : String) → has id targets ≡ true → has id excluded ≡ has id saved)
unfolding approve_disabled
approve-AsShown pending targets excluded saved nodup nodup_saved h =
    let (rest, dirty) = or_false h in
    let (rest, selection) = or_false rest in
    let (review, correction) = or_false rest in
    let (part, whole) = (selection_is_dirty_iff targets excluded saved nodup nodup_saved).0 dirty in
    (
      review,
      correction,
      selection,
      λ id inside. ground (arith, part id, whole id, has-ordered_draft id targets excluded),
    )

filter_split :
    (p : String → Bool) (xs : List String)
    → length (filter p xs) < length xs
    → (id : String) × (has id xs ≡ true) × (p id ≡ false)
filter_split p [] h = absurd (ground arith)
filter_split p (x ∷ xs) h = elim (Bool-cases (p x)) [
  | inl e ↦ let (id, inside, off) = filter_split p xs (ground arith) in (id, ground arith, off)
  | inr e ↦ (x, rw (eq_refl x) refl, e)
]

-- Where "Save Tally selection" is enabled, the selection differs from the saved one, no other is being
-- saved, and at least one target of the page stays in the export.
pub save_selection-KeepsOne :
    (pending : Pending) (targets excluded saved : List String)
    → save_selection_disabled pending
        (selection_is_dirty (ordered_draft targets excluded) saved)
        (length targets - length (ordered_draft targets excluded))
      ≡ false
    → (selection_is_dirty (ordered_draft targets excluded) saved ≡ true)
      × (pending.selection ≡ false)
      × ((id : String) × (has id targets ≡ true) × (has id excluded ≡ false))
unfolding save_selection_disabled ordered_draft
save_selection-KeepsOne pending targets excluded saved h =
    (ground arith, ground arith, filter_split (λ id. has id excluded) targets (ground arith))
