-- ===== src/Review/Groups.antt =====
-- The layout of the sections on review-page.jsx.
use cassist.Prelude.{
  ◌≤◌, map, ◌≡◌, ◌≢◌, refl, ap, sym, ◌∙◌, inl, inr, String, Bool, true, false, not, List, [], ◌∷◌,
  ◌++◌, has, filter, All, All-append, Bool-cases, arith, append_assoc, append-nil, length, eqb,
}
use cassist.Review.{
  Section, Group, wide, compact, contains_table, flush, group_from, group_review_sections,
  visible_sections, presentation_target_ids,
}
use cassist.Review.Parts.{Layout, wide_layout, balanced_layout, group_layout}

-- The sections of the groups, in the order in which they are laid out.
abbrev pub sections_of : List Group → List Section
sections_of [] = []
sections_of (wide s ∷ gs) = s ∷ sections_of gs
sections_of (compact ss ∷ gs) = ss ++ sections_of gs

-- A wide group has a table, and a compact one has sections, none with a table.
abbrev pub IsLaidOut : List String → Group → Type 0
IsLaidOut tables (wide s) = contains_table tables s ≡ true
IsLaidOut tables (compact ss) = (ss ≢ []) × All (λ s. contains_table tables s ≡ false) ss

-- No two compact groups stand next to each other.
abbrev pub IsMaximal : List Group → Type 0
IsMaximal [] = Unit
IsMaximal (wide s ∷ gs) = IsMaximal gs
IsMaximal (compact ss ∷ []) = Unit
IsMaximal (compact ss ∷ wide s ∷ gs) = IsMaximal gs
IsMaximal (compact ss ∷ compact ts ∷ gs) = ⊥

-- What stands in two columns are at least two sections, none with a table.
abbrev pub IsArranged : List String → Layout → Type 0
IsArranged tables (wide_layout s) = Unit
IsArranged tables (balanced_layout ss) =
    (2 ≤ length ss) × All (λ s. contains_table tables s ≡ false) ss

group_layout-IsArranged :
    (tables : List String) (g : Group) → IsLaidOut tables g → IsArranged tables (group_layout g)
unfolding group_layout
group_layout-IsArranged tables (wide s) h = tt
group_layout-IsArranged tables (compact []) h = absurd (h.0 refl)
group_layout-IsArranged tables (compact (s ∷ [])) h = tt
group_layout-IsArranged tables (compact (s ∷ t ∷ ss)) h = (omega arith, h.1)

layouts-IsArranged :
    (tables : List String) (gs : List Group)
    → All (IsLaidOut tables) gs
    → All (IsArranged tables) (map group_layout gs)
layouts-IsArranged tables [] h = tt
layouts-IsArranged tables (g ∷ gs) h =
    (group_layout-IsArranged tables g h.0, layouts-IsArranged tables gs h.1)

-- Any groups may follow.
abbrev IsClosed : List Group → Type 0
IsClosed gs = (hs : List Group) → IsMaximal hs → IsMaximal (gs ++ hs)

IsMaximal-flush : (ss : List Section) (gs : List Group) → IsClosed gs → IsMaximal (flush ss gs)
IsMaximal-flush [] gs closed = rw (← append-nil gs) (closed [] tt)
IsMaximal-flush (s ∷ ss) gs closed = closed (compact (s ∷ ss) ∷ []) tt

IsClosed-flush :
    (ss : List Section) (t : Section) (gs : List Group)
    → IsClosed gs
    → IsClosed (flush ss gs ++ wide t ∷ [])
IsClosed-flush [] t gs closed hs h = rw (append_assoc gs (wide t ∷ []) hs) (closed (wide t ∷ hs) h)
IsClosed-flush (s ∷ ss) t gs closed hs h =
    rw
      (
        append_assoc (gs ++ compact (s ∷ ss) ∷ []) (wide t ∷ []) hs,
        append_assoc gs (compact (s ∷ ss) ∷ []) (wide t ∷ hs),
      )
      (closed (compact (s ∷ ss) ∷ wide t ∷ hs) h)

IsMaximal-group_from :
    (tables : List String) (ss gathered : List Section) (gs : List Group)
    → IsClosed gs
    → IsMaximal (group_from tables ss gathered gs)
unfolding group_from
IsMaximal-group_from tables [] gathered gs closed = IsMaximal-flush gathered gs closed
IsMaximal-group_from tables (s ∷ ss) gathered gs closed =
    elim (Bool-cases (contains_table tables s)) [
      | inl e ↦ rw e (
          IsMaximal-group_from tables ss [] (flush gathered gs ++ wide s ∷ [])
            (IsClosed-flush gathered s gs closed))
      | inr e ↦ rw e (IsMaximal-group_from tables ss (gathered ++ s ∷ []) gs closed)
    ]

sections_of-append :
    (gs hs : List Group) → sections_of (gs ++ hs) ≡ sections_of gs ++ sections_of hs
sections_of-append [] hs = refl
sections_of-append (wide s ∷ gs) hs = ap (λ ss. s ∷ ss) (sections_of-append gs hs)
sections_of-append (compact ss ∷ gs) hs =
    ap (λ ts. ss ++ ts) (sections_of-append gs hs)
    ∙ sym (append_assoc ss (sections_of gs) (sections_of hs))

sections_of-flush :
    (ss : List Section) (gs : List Group) → sections_of (flush ss gs) ≡ sections_of gs ++ ss
sections_of-flush [] gs = sym (append-nil (sections_of gs))
sections_of-flush (s ∷ ss) gs =
    sections_of-append gs (compact (s ∷ ss) ∷ [])
    ∙ ap (λ ts. sections_of gs ++ s ∷ ts) (append-nil ss)

IsLaidOut-flush :
    (tables : List String) (ss : List Section) (gs : List Group)
    → All (λ s. contains_table tables s ≡ false) ss
    → All (IsLaidOut tables) gs
    → All (IsLaidOut tables) (flush ss gs)
IsLaidOut-flush tables [] gs h hs = hs
IsLaidOut-flush tables (s ∷ ss) gs h hs =
    All-append (IsLaidOut tables) gs (compact (s ∷ ss) ∷ []) hs (((λ e. cc), h), tt)

module _ (tables : List String) where
  sections_of-group_from :
      (ss gathered : List Section) (gs : List Group)
      → sections_of (group_from tables ss gathered gs) ≡ sections_of gs ++ (gathered ++ ss)
  unfolding group_from
  sections_of-group_from [] gathered gs =
      sections_of-flush gathered gs ∙ ap (λ ts. sections_of gs ++ ts) (sym (append-nil gathered))
  sections_of-group_from (s ∷ ss) gathered gs = elim (Bool-cases (contains_table tables s)) [
    | inl e ↦ rw e (
        sections_of-group_from ss [] (flush gathered gs ++ wide s ∷ [])
        ∙ ap (λ ts. ts ++ ss) (sections_of-append (flush gathered gs) (wide s ∷ []))
        ∙ ap (λ ts. (ts ++ s ∷ []) ++ ss) (sections_of-flush gathered gs)
        ∙ append_assoc (sections_of gs ++ gathered) (s ∷ []) ss
        ∙ append_assoc (sections_of gs) gathered (s ∷ ss))
    | inr e ↦ rw e (
        sections_of-group_from ss (gathered ++ s ∷ []) gs
        ∙ ap (λ ts. sections_of gs ++ ts) (append_assoc gathered (s ∷ []) ss))
  ]

  IsLaidOut-group_from :
      (ss gathered : List Section) (gs : List Group)
      → All (λ s. contains_table tables s ≡ false) gathered
      → All (IsLaidOut tables) gs
      → All (IsLaidOut tables) (group_from tables ss gathered gs)
  unfolding group_from
  IsLaidOut-group_from [] gathered gs h hs = IsLaidOut-flush tables gathered gs h hs
  IsLaidOut-group_from (s ∷ ss) gathered gs h hs = elim (Bool-cases (contains_table tables s)) [
    | inl e ↦ rw e (
        IsLaidOut-group_from ss [] (flush gathered gs ++ wide s ∷ []) tt (
          All-append (IsLaidOut tables) (flush gathered gs) (wide s ∷ [])
            (IsLaidOut-flush tables gathered gs h hs) (e, tt)))
    | inr e ↦ rw e (
        IsLaidOut-group_from ss (gathered ++ s ∷ []) gs
          (All-append (λ t. contains_table tables t ≡ false) gathered (s ∷ []) h (e, tt)) hs)
  ]

-- For all tables and sections, the groups have every section once, in the given order. A section is a
-- wide group if it contains a table; the other groups are compact, that is runs of sections without
-- tables, of which none is empty and no two are adjacent. What is laid out in two columns are at least
-- two sections, none with a table: a run of one section is laid out wide.
pub group_review_sections-IsLaidOut :
    (tables : List String) (ss : List Section)
    → (sections_of (group_review_sections tables ss) ≡ ss)
      × All (IsLaidOut tables) (group_review_sections tables ss)
      × IsMaximal (group_review_sections tables ss)
      × All (IsArranged tables) (map group_layout (group_review_sections tables ss))
unfolding group_review_sections
group_review_sections-IsLaidOut tables ss =
    let laid_out = IsLaidOut-group_from tables ss [] [] tt tt in
    (
      sections_of-group_from tables ss [] [],
      laid_out,
      IsMaximal-group_from tables ss [] [] (λ hs h. h),
      layouts-IsArranged tables (group_from tables ss [] []) laid_out,
    )

-- What an approved review shows.

filter-append :
    (p : String → Bool) (xs ys : List String) → filter p (xs ++ ys) ≡ filter p xs ++ filter p ys
filter-append p [] ys = refl
filter-append p (x ∷ xs) ys = elim (Bool-cases (p x)) [
  | inl e ↦ rw e (ap (λ zs. x ∷ zs) (filter-append p xs ys))
  | inr e ↦ rw e (filter-append p xs ys)
]

nil_of_empty : (xs : List String) → eqb (length xs) 0 ≡ true → xs ≡ []
nil_of_empty [] h = refl
nil_of_empty (x ∷ xs) h = ground arith

-- For all sections and saved exclusions, an approved review shows just the targets that are not
-- excluded, each where it stood, and no empty section.
pub presentation_target_ids-visible_sections :
    (saved : List String) (sections : List Section)
    → (presentation_target_ids (visible_sections true saved sections)
        ≡ filter (λ id. not (has id saved)) (presentation_target_ids sections))
      × All (λ s. eqb (length s.target_ids) 0 ≡ false) (visible_sections true saved sections)
unfolding presentation_target_ids visible_sections
presentation_target_ids-visible_sections saved [] = (refl, tt)
presentation_target_ids-visible_sections saved (s ∷ ss) =
    let (same, full) = presentation_target_ids-visible_sections saved ss in
    let p : String → Bool = λ id. not (has id saved) in
    elim (Bool-cases (eqb (length (filter p s.target_ids)) 0)) [
      | inl e ↦ rw e (
        same
            ∙ sym (
                filter-append p s.target_ids (presentation_target_ids ss)
                ∙ ap (λ ids. ids ++ filter p (presentation_target_ids ss))
                    (nil_of_empty (filter p s.target_ids) e)),
        full,
      )
      | inr e ↦ rw e (
        ap (λ ids. filter p s.target_ids ++ ids) same
            ∙ sym (filter-append p s.target_ids (presentation_target_ids ss)),
        (e, full),
      )
    ]
