-- ===== src/Review/Requests/Laws.antt =====
-- What the review page keeps over its requests.
use cassist.Prelude.{
  ◌≡◌, ◌⊎◌, inl, inr, refl, String, Bool, true, false, not, Option, none, some, List, [], ◌∷◌, ◌&&◌,
  ◌==◌, if◌then◌else◌, arith, Bool-cases,
}
use cassist.Api.World.{Error}
use cassist.Review.Requests.{
  Page, Event, corrects, approves, returns, saves, exports, toggles, retries, renders, ticks,
  corrected, reviewed, selected, correction_failed, review_failed, selection_failed, export_failed,
  source_failed, exported, source_given, loaded, ReviewResult, is_unasked, is_shown,
  toggle_original, ask_source, request_source, is_conflict, handle_mutation_error,
  update_cached_result, save_correction, send_review, press_approve, press_return, save_selection,
  press_export, tick, retry_source, handle, handle_all, mount, first_shown, mutation_error,
  error_of,
}

-- A page that is loaded again shows the original just if this one does.
abbrev pub IsRemembered : Page → Type 0
IsRemembered p = is_shown p.stored ≡ p.show_original

either-IsRemembered :
    (b : Bool) (p q : Page) → IsRemembered p → IsRemembered q → IsRemembered (if b then p else q)
either-IsRemembered true p q hp hq = hp
either-IsRemembered false p q hp hq = hq

shown_lem : (b : Bool) → is_shown (some (if b then "true" else "false")) ≡ b
unfolding is_shown
shown_lem true = refl
shown_lem false = refl

conflict-IsRemembered :
    (e : Error) (p : Page) → IsRemembered p → IsRemembered (handle_mutation_error e p)
unfolding handle_mutation_error
conflict-IsRemembered e p h = either-IsRemembered (is_conflict e) _ p h h

handle-IsRemembered :
    (trim : String → String) (e : Event) (p : Page)
    → IsRemembered p
    → IsRemembered (handle trim e p)
unfolding handle save_correction press_approve press_return save_selection press_export
    toggle_original retry_source request_source ask_source tick update_cached_result send_review
handle-IsRemembered trim (corrects target_id value reason) p h = either-IsRemembered _ p _ h h
handle-IsRemembered trim approves p h = either-IsRemembered _ p _ h h
handle-IsRemembered trim returns p h = either-IsRemembered _ _ p h h
handle-IsRemembered trim saves p h = either-IsRemembered _ p _ h h
handle-IsRemembered trim exports p h = either-IsRemembered _ _ p h h
handle-IsRemembered trim toggles p h = shown_lem (not p.show_original)
handle-IsRemembered trim retries p h = h
handle-IsRemembered trim renders p h = either-IsRemembered _ _ p h h
handle-IsRemembered trim (ticks target_ids chosen) p h = either-IsRemembered _ p _ h h
handle-IsRemembered trim (corrected result) p h = h
handle-IsRemembered trim (reviewed result) p h = h
handle-IsRemembered trim (selected result) p h = h
handle-IsRemembered trim (correction_failed e) p h = conflict-IsRemembered e _ h
handle-IsRemembered trim (review_failed e) p h = conflict-IsRemembered e _ h
handle-IsRemembered trim (selection_failed e) p h = conflict-IsRemembered e _ h
handle-IsRemembered trim (export_failed e) p h = conflict-IsRemembered e _ h
handle-IsRemembered trim exported p h = h
handle-IsRemembered trim (source_failed e) p h = h
handle-IsRemembered trim (source_given url) p h = h
handle-IsRemembered trim (loaded result) p h = h

handle_each-IsRemembered :
    (trim : String → String) (es : List Event) (p : Page)
    → IsRemembered p
    → IsRemembered (handle_all trim es p)
unfolding handle_all
handle_each-IsRemembered trim [] p h = h
handle_each-IsRemembered trim (e ∷ es) p h =
    handle_each-IsRemembered trim es (handle trim e p) (handle-IsRemembered trim e p h)

-- After any events, from any text in the storage, a page that is loaded again with what the storage
-- has then shows or hides the original as this page does.
pub handle_all-mount :
    (trim : String → String) (es : List Event) (stored : Option String)
    (result again : ReviewResult)
    → let p = handle_all trim es (mount stored result) in
      (mount p.stored again).show_original ≡ p.show_original
unfolding mount
handle_all-mount trim es stored result again =
    handle_each-IsRemembered trim es (mount stored result) refl

false_and : (a : Bool) → (a && false) ≡ false
false_and a = ground arith

request_source-asked : (p : Page) → is_unasked p.original ≡ false → request_source p ≡ p
unfolding request_source
request_source-asked p h =
    let asked =
      p.show_original && p.result.original_available && not (p.result.document_id == "") in
    rw (h, false_and asked) refl

request_source-cases : (p : Page) → (request_source p ≡ p) ⊎ (request_source p ≡ ask_source p)
unfolding request_source
request_source-cases p =
    elim (Bool-cases (
      p.show_original
      && p.result.original_available
      && not (p.result.document_id == "")
      && is_unasked p.original)) [ inl e ↦ inr (rw e refl) | inr e ↦ inl (rw e refl) ]

-- The effect asks for the original once: run again before an answer, after one, or after a failure,
-- it does nothing, until the preview's button is pressed.
pub request_source-again : (p : Page) → request_source (request_source p) ≡ request_source p
unfolding ask_source is_unasked
request_source-again p = twice (request_source-cases p)
  where
    twice :
        (request_source p ≡ p) ⊎ (request_source p ≡ ask_source p)
        → request_source (request_source p) ≡ request_source p
    twice (inl e) = rw (e, e) refl
    twice (inr e) = rw e (request_source-asked (ask_source p) refl)

first_shown-conflict :
    (es : List (Option Error)) (e : Error) → first_shown es ≡ some e → is_conflict e ≡ false
first_shown-conflict [] e h = ground arith
first_shown-conflict (none ∷ es) e h = first_shown-conflict es e h
first_shown-conflict (some a ∷ es) e h =
    at (λ g. first_shown-conflict es e g) (is_conflict a) refl h
  where
    at :
        (first_shown es ≡ some e → is_conflict e ≡ false)
        → (b : Bool) → is_conflict a ≡ b
        → (if b then first_shown es else some a) ≡ some e
        → is_conflict e ≡ false
    at later true c g = later g
    at later false c g = cc

-- An error of a conflict is not shown as an error, since the newer version is loaded instead.
pub mutation_error-conflict :
    (p : Page) (e : Error) → mutation_error p ≡ some e → is_conflict e ≡ false
unfolding mutation_error
mutation_error-conflict p e h =
    first_shown-conflict
      (error_of p.correction
        ∷ error_of p.reviewing
        ∷ error_of p.selection
        ∷ error_of p.exporting
        ∷ [])
      e h
