-- ===== src/Dashboard/Pages.antt =====
-- The pages of the list of documents, and the selection that belongs to one page.
use cassist.Prelude.{
  ℕ, suc, ◌-◌, ◌<◌, ◌≤◌, ◌≡◌, ◌⊎◌, inl, inr, refl, ap, ◌∙◌, String, true, false, Option, none, some,
  List, [], ◌∷◌, ◌++◌, ◌==◌, get_elem?, take, length, length-append, length-take,
  get_elem?-append_length, get_elem?-take, get_elem?-append_lt, get_elem?-lt, arith, Bool-cases,
  eq_iff,
}
use cassist.Dashboard.{
  Dashboard, Event, handle, handle_all, searched, filtered_status, filtered_type, previous_page,
  next_page, start_selecting, stop_selecting, open_dialog, ticked, ticked_all, dialog_changed,
  deleted, show_next_page, show_previous_page, settle_search, finish_bulk_delete, same_cursor,
  failed_ids, actionable_targets, next_cursors,
}
use mathlib.Core.Path.{subst}

-- The shown page has a cursor, and the first page has none of the server's.
abbrev pub IsPaged : Dashboard → Type 0
IsPaged d = (d.page_index < length d.page_cursors) × (get_elem? d.page_cursors 0 ≡ some none)

same_cursor_eq :
    (o : Option (Option String)) (c : String) → same_cursor o c ≡ true → o ≡ some (some c)
same_cursor_eq none c h = ground arith
same_cursor_eq (some none) c h = ground arith
same_cursor_eq (some (some a)) c h = ground (arith, eq_iff a c)

-- The cursors up to this page stay, and the next one is added or kept.
next_cursors_lem :
    (i : ℕ) (c : String) (cs : List (Option String))
    → i < length cs
    → (suc i < length (next_cursors i c cs))
      × (get_elem? (next_cursors i c cs) (suc i) ≡ some (some c))
      × ((j : ℕ) → j ≤ i → get_elem? (next_cursors i c cs) j ≡ get_elem? cs j)
unfolding next_cursors
next_cursors_lem i c cs inside = elim (Bool-cases (same_cursor (get_elem? cs (suc i)) c)) [
  | inl e ↦
      let at = same_cursor_eq (get_elem? cs (suc i)) c e in
      rw e (get_elem?-lt cs (suc i) (some c) at, at, λ j h. refl)
  | inr e ↦
      let n : length (take (suc i) cs) ≡ suc i = omega (arith, length-take (suc i) cs) in
      rw e (
        omega (arith, n, length-append (take (suc i) cs) (some c ∷ [])),
        subst (λ k. get_elem? (take (suc i) cs ++ some c ∷ []) k ≡ some (some c)) n
            (get_elem?-append_length (take (suc i) cs) (some c)),
        λ j h.
            get_elem?-append_lt (take (suc i) cs) (some c ∷ []) j (omega (arith, n))
            ∙ get_elem?-take (suc i) j cs (omega arith),
      )
]

show_next_page-IsPaged :
    (c : Option String) (d : Dashboard) → IsPaged d → IsPaged (show_next_page c d)
unfolding show_next_page
show_next_page-IsPaged none d h = h
show_next_page-IsPaged (some c) d (inside, first) = elim (Bool-cases (c == "")) [
  | inl e ↦ rw e (inside, first)
  | inr e ↦
      let (more, _, same) = next_cursors_lem d.page_index c d.page_cursors inside in
      rw e (more, same 0 (omega arith) ∙ first)
]

finish-IsPaged :
    (ids : List String) (d : Dashboard) → IsPaged d → IsPaged (finish_bulk_delete ids d)
unfolding finish_bulk_delete
finish-IsPaged [] d h = h
finish-IsPaged (id ∷ ids) d h = h

handle-IsPaged : (e : Event) (d : Dashboard) → IsPaged d → IsPaged (handle e d)
unfolding handle settle_search show_previous_page finish_bulk_delete
handle-IsPaged (searched t) d h = elim (Bool-cases (t == d.debounced_search)) [
  | inl e ↦ rw e h
  | inr e ↦ rw e (omega arith, refl)
]
handle-IsPaged (filtered_status s) d h = (omega arith, refl)
handle-IsPaged (filtered_type t) d h = (omega arith, refl)
handle-IsPaged previous_page d (inside, first) = (omega arith, first)
handle-IsPaged (next_page c) d h = show_next_page-IsPaged c d h
handle-IsPaged start_selecting d h = h
handle-IsPaged stop_selecting d h = h
handle-IsPaged open_dialog d h = h
handle-IsPaged (ticked id c) d h = h
handle-IsPaged (ticked_all ds c) d h = h
handle-IsPaged (dialog_changed true shown) d h = h
handle-IsPaged (dialog_changed false shown) d h = h
handle-IsPaged (deleted mode ts rs) d h =
    finish-IsPaged (failed_ids (actionable_targets mode ts) rs) d h

-- The shown page has a cursor of its own, and the first page is the one without a cursor. Whatever
-- then happens on the page of documents, both stay so.
pub handle_all-IsPaged : (es : List Event) (d : Dashboard) → IsPaged d → IsPaged (handle_all es d)
unfolding handle_all
handle_all-IsPaged [] d h = h
handle_all-IsPaged (e ∷ es) d h = handle_all-IsPaged es (handle e d) (handle-IsPaged e d h)

-- On a page with a cursor of its own, when the list names a next page: "next" shows the page at
-- the cursor that the list named, and "previous" after it shows the same page as before.
pub previous_after_next :
    (c : String) (d : Dashboard)
    → IsPaged d
    → (c == "") ≡ false
    → (let n = show_next_page (some c) d in
        let p = show_previous_page n in
        (get_elem? n.page_cursors n.page_index ≡ some (some c))
        × (p.page_index ≡ d.page_index)
        × (get_elem? p.page_cursors p.page_index ≡ get_elem? d.page_cursors d.page_index))
unfolding show_next_page show_previous_page
previous_after_next c d (inside, first) e =
    let (_, at, same) = next_cursors_lem d.page_index c d.page_cursors inside in
    let back : suc d.page_index - 1 ≡ d.page_index = omega arith in
    rw e (
      at,
      back,
      ap (get_elem? (next_cursors d.page_index c d.page_cursors)) back
          ∙ same d.page_index (omega arith),
    )

-- What the list that is shown is asked for.
abbrev pub query_of : Dashboard → String × String × String × Option (Option String)
query_of d = (
  d.debounced_search,
  d.status_filter,
  d.document_type_filter,
  get_elem? d.page_cursors d.page_index,
)

finish-query_of :
    (ids : List String) (d : Dashboard) → query_of (finish_bulk_delete ids d) ≡ query_of d
unfolding finish_bulk_delete
finish-query_of [] d = refl
finish-query_of (id ∷ ids) d = refl

-- Each event on the page of documents either keeps the search, the filters and the page of the list
-- that is asked for, or leaves nothing selected.
pub handle-selection :
    (e : Event) (d : Dashboard) → query_of (handle e d) ≡ query_of d ⊎ (handle e d).selected ≡ []
unfolding handle settle_search show_previous_page show_next_page
handle-selection (searched t) d = elim (Bool-cases (t == d.debounced_search)) [
  | inl e ↦ inl (rw e refl)
  | inr e ↦ inr (rw e refl)
]
handle-selection (filtered_status s) d = inr refl
handle-selection (filtered_type t) d = inr refl
handle-selection previous_page d = inr refl
handle-selection (next_page none) d = inl refl
handle-selection (next_page (some c)) d = elim (Bool-cases (c == "")) [
  | inl e ↦ inl (rw e refl)
  | inr e ↦ inr (rw e refl)
]
handle-selection start_selecting d = inl refl
handle-selection stop_selecting d = inl refl
handle-selection open_dialog d = inl refl
handle-selection (ticked id c) d = inl refl
handle-selection (ticked_all ds c) d = inl refl
handle-selection (dialog_changed true shown) d = inl refl
handle-selection (dialog_changed false shown) d = inl refl
handle-selection (deleted mode ts rs) d =
    inl (finish-query_of (failed_ids (actionable_targets mode ts) rs) d)
