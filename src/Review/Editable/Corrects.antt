-- ===== src/Review/Editable/Corrects.antt =====
-- Which corrections the values on the review page lead to.
use cassist.Prelude.{◌≡◌, ◌⊎◌, String, true, false, Option, none}
use cassist.Review.Editor.{Editor}
use cassist.Review.Requests.{is_approved}
use cassist.Review.Value.{Props, Event, editable_value, Shown, Body, reads, no_buttons}
use cassist.Review.Editable.{Source, use_value}
use cassist.Review.Editable.Evidence.{evidence_after}
use cassist.Review.Editable.Careful.{IsCareful}

-- A value that can only be read: it has no box and no buttons, and shows no field to type in.
abbrev pub IsReadOnly : Shown → Type 0
IsReadOnly shown = (shown.box ≡ none) × IsRead shown.body × (shown.buttons ≡ no_buttons)
  where
    IsRead : Body → Type 0
    IsRead (reads _ _) = Unit
    IsRead _ = ⊥

-- Of an approved review a value is only read, and no use of it changes the page; of another one a
-- use of it may ask for a correction or set its box. The active evidence is the value's own where the
-- user comes to it.
abbrev pub IsUsed {ℓ} :
    {E : Type ℓ} → Source → String → E → Option E → Props → Event → Editor → Type ℓ
IsUsed s id evidence active props event e =
    let (q, shown) = use_value s id evidence active props event e in
    (shown ≡ evidence_after evidence event active)
    × (((is_approved s.page ≡ true) × (q ≡ s.page) × IsReadOnly (editable_value props e))
        ⊎ ((is_approved s.page ≡ false) × IsCareful s id event q))
