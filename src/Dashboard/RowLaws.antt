-- ===== src/Dashboard/RowLaws.antt =====
-- What a row of the list of documents offers at the same time, and how it polls.
use cassist.Prelude.{
  is_some, ℕ, ◌≡◌, ◌≤◌, inl, inr, refl, sym, ◌∙◌, String, Bool, true, false, not, Option, none,
  some, List, [], ◌∷◌, ◌++◌, ◌==◌, ◌&&◌, if◌then◌else◌, has, arith, Bool-cases, ltb, eqb, eq_iff,
  any, true-ne-false,
}
use cassist.Dashboard.{
  Run, Document, terminal_run_statuses, document_deletion_disabled, adaptive_polling_interval,
}
use cassist.Dashboard.Row.{
  Row, Action, compare_models, review, retry, confirm, stop, delete_document, actions, run_of,
  is_running, is_live, delete_disabled, refetch_interval, has_status, when,
}

abbrev pub number_of : Action → ℕ
number_of compare_models = 0
number_of review = 1
number_of retry = 2
number_of confirm = 3
number_of stop = 4
number_of delete_document = 5

-- The button is there, enabled or not.
abbrev pub shows : Action → List (Action × Bool) → Bool
shows a buttons = any (λ (b, _). eqb (number_of a) (number_of b)) buttons

-- The button is there and enabled.
abbrev pub allows : Action → List (Action × Bool) → Bool
allows a buttons = any (λ (b, enabled). eqb (number_of a) (number_of b) && enabled) buttons

-- A list of buttons by what decides on each.
abbrev buttons : (a b c d e x y z w : Bool) → List (Action × Bool)
buttons a b c d e x y z w =
    when a compare_models true
    ++ (when b review true
        ++ (when c retry x ++ (when d confirm y ++ (when e stop z ++ (delete_document, w) ∷ []))))

buttons-stop : (a b c d e x y z w : Bool) → shows stop (buttons a b c d e x y z w) ≡ e
buttons-stop a b c d e x y z w = ground arith

buttons-retry : (a b c d e x y z w : Bool) → shows retry (buttons a b c d e x y z w) ≡ c
buttons-retry a b c d e x y z w = ground arith

buttons-confirm : (a b c d e x y z w : Bool) → shows confirm (buttons a b c d e x y z w) ≡ d
buttons-confirm a b c d e x y z w = ground arith

buttons-delete : (a b c d e x y z w : Bool) → allows delete_document (buttons a b c d e x y z w) ≡ w
buttons-delete a b c d e x y z w = ground arith

live-not_status :
    (run : Option Run) (status : String)
    → has status terminal_run_statuses ≡ true
    → is_live run ≡ true
    → has_status status run ≡ false
live-not_status none status t h = refl
live-not_status (some run) status t h = elim (Bool-cases (run.status == status)) [
  | inl e ↦ absurd (true-ne-false (sym h ∙ rw ((eq_iff run.status status).0 e, t) refl))
  | inr e ↦ e
]

live-deletion :
    (d : Document) (run : Option Run) → is_live run ≡ true → document_deletion_disabled d run ≡ true
unfolding document_deletion_disabled
live-deletion d none h = ground arith
live-deletion d (some run) h = h

never : (a b : Bool) → (a ≡ true → b ≡ false) → (a && b) ≡ false
never true b h = h refl
never false b h = refl

-- The row offers to stop the processing just while a run is under way. While it is, the row offers
-- no new try and no confirmation, and its document cannot be deleted.
pub actions-running :
    (dev : Bool) (row : Row)
    → (shows stop (actions dev row) ≡ is_running row)
      × ((is_running row && shows retry (actions dev row)) ≡ false)
      × ((is_running row && shows confirm (actions dev row)) ≡ false)
      × ((is_running row && allows delete_document (actions dev row)) ≡ false)
unfolding actions is_running delete_disabled
actions-running dev row = (
  buttons-stop _ _ _ _ _ _ _ _ _,
  never (is_live (run_of row)) _ (λ h.
      buttons-retry _ _ _ _ _ _ _ _ _ ∙ rw (live-not_status (run_of row) "failed" refl h) refl),
  never (is_live (run_of row)) _ (λ h.
      buttons-confirm _ _ _ _ _ _ _ _ _
      ∙ rw (live-not_status (run_of row) "needs_confirmation" refl h) refl),
  never (is_live (run_of row)) _
      (λ h. buttons-delete _ _ _ _ _ _ _ _ _ ∙ rw (live-deletion row.document (run_of row) h) refl),
)

-- The wait before the next request, if there is one, lies between these milliseconds.
abbrev pub IsBetween : ℕ → ℕ → Option ℕ → Type 0
IsBetween least most none = Unit
IsBetween least most (some ms) = (least ≤ ms) × (ms ≤ most)

pub interval-IsBetween :
    (status : Option String) (updates : ℕ) (terminal : List String)
    → IsBetween 2000 10000 (adaptive_polling_interval status updates terminal)
unfolding adaptive_polling_interval
interval-IsBetween status updates terminal =
    cases (elim status as (λ _. Bool) [ none ↦ false | some s ↦ has s terminal ]) (ltb updates 3)
      (ltb updates 6)
  where
    cases :
        (over a b : Bool)
        → IsBetween 2000 10000
            (if over then none else if a then some 2000 else if b then some 5000 else some 10000)
    cases true a b = tt
    cases false true b = (omega arith, omega arith)
    cases false false true = (omega arith, omega arith)
    cases false false false = (omega arith, omega arith)

pub is_some-interval :
    (status : String) (updates : ℕ) (terminal : List String)
    → is_some (adaptive_polling_interval (some status) updates terminal) ≡ not (has status terminal)
unfolding adaptive_polling_interval
is_some-interval status updates terminal = ground arith

-- Once polling has answered, the row asks again if and only if the run is under way, and it waits from
-- 2 to 10 seconds before it does.
pub refetch_interval-running :
    (row : Row) (run : Run) (stage : Option String) (updates : ℕ)
    → row.polled ≡ some (run, stage)
    → (is_some (refetch_interval row updates) ≡ is_running row)
      × IsBetween 2000 10000 (refetch_interval row updates)
unfolding is_running run_of refetch_interval
refetch_interval-running row run stage updates polled = rw polled (
  is_some-interval run.status updates terminal_run_statuses,
  interval-IsBetween (some run.status) updates terminal_run_statuses,
)
