-- ===== src/Dashboard/Selection.antt =====
-- The selection on the list of documents, and the bulk deletion.
use cassist.Prelude.{
  eqb, ◌≡◌, ◌⊎◌, ◌↔◌, inl, inr, refl, ◌∙◌, String, Bool, true, false, not, none, some, Option, ap,
  List, [], ◌∷◌, ◌==◌, ◌&&◌, ◌||◌, if◌then◌else◌, length, arith, eq_refl, has, add, delete, has-add,
  has-delete, any, all, is_some,
}
use cassist.Dashboard.{
  Dashboard, Document, Run, document_deletion_disabled, DeleteMode, handle, ticked_all, deleted,
  select_all, eligible_documents, all_eligible_selected, finish_bulk_delete, failed_ids,
  actionable_targets,
}

abbrev pub listed : String → List Document → Bool
listed id documents = any (λ document. document.id == id) documents

-- The box for all documents adds or removes just the documents that it stands for.
has-select_all :
    (ds : List Document) (checked : Bool) (id : String) (s : List String)
    → has id (select_all ds checked s)
      ≡ (if checked then listed id ds || has id s else not (listed id ds) && has id s)
unfolding select_all
has-select_all [] true id s = refl
has-select_all [] false id s = refl
has-select_all (d ∷ ds) true id s =
    ground (arith, has-select_all ds true id (add d.id s), has-add id d.id s)
has-select_all (d ∷ ds) false id s =
    ground (arith, has-select_all ds false id (delete d.id s), has-delete id d.id s)

listed_self : (d : Document) (ds : List Document) → listed d.id (d ∷ ds) ≡ true
listed_self d ds = rw (eq_refl d.id) refl

-- Those who are all listed in `all_of` are found in a list that has all of those.
every_present :
    (all_of ds : List Document) (s : List String)
    → ((id : String) → listed id ds ≡ true → listed id all_of ≡ true)
    → ((id : String) → listed id all_of ≡ true → has id s ≡ true)
    → all (λ d. has d.id s) ds ≡ true
every_present all_of [] s inside found = refl
every_present all_of (d ∷ ds) s inside found =
    rw (found d.id (inside d.id (listed_self d ds)))
      (every_present all_of ds s (λ id h. inside id (ground arith)) found)

-- The latest run is over, or without a run the document is not on its way.
abbrev pub deletable_with : Document → Option Run → Bool
deletable_with document (some run) =
    "succeeded" == run.status
    || "failed" == run.status
    || "cancelled" == run.status
    || "needs_confirmation" == run.status
    || "unsupported" == run.status
deletable_with document none =
    not ("upload_pending" == document.status)
    && not ("uploaded" == document.status)
    && not ("processing" == document.status)

abbrev pub deletable : Document → Bool
deletable document = deletable_with document document.latest_run

abbrev pub listed_deletable : String → List Document → Bool
listed_deletable id documents = any (λ document. deletable document && document.id == id) documents

enabled_with :
    (document : Document) (run : Option Run)
    → not (document_deletion_disabled document run) ≡ deletable_with document run
unfolding document_deletion_disabled
enabled_with document (some run) = ground arith
enabled_with document none = ground arith

listed-eligible_documents :
    (id : String) (ds : List Document) → listed id (eligible_documents ds) ≡ listed_deletable id ds
unfolding eligible_documents
listed-eligible_documents id [] = refl
listed-eligible_documents id (d ∷ ds) =
    ground (arith, enabled_with d d.latest_run, listed-eligible_documents id ds)

some_eligible :
    (ds : List Document) → not (eqb (length (eligible_documents ds)) 0) ≡ any deletable ds
unfolding eligible_documents
some_eligible [] = refl
some_eligible (d ∷ ds) = ground (arith, enabled_with d d.latest_run, some_eligible ds)

-- A tick of the box for all documents selects, besides those selected before, just the listed
-- documents whose latest run is over or, without a run, which are not being uploaded or processed;
-- the box then shows itself as ticked just if there is such a document. Clearing it takes just these
-- out of the selection.
pub ticked_all-selected :
    (documents : List Document) (d : Dashboard)
    → ((id : String)
        → has id (handle (ticked_all documents true) d).selected
          ≡ (listed_deletable id documents || has id d.selected))
      × (all_eligible_selected documents (handle (ticked_all documents true) d)
          ≡ any deletable documents)
      × ((id : String)
          → has id (handle (ticked_all documents false) d).selected
            ≡ (not (listed_deletable id documents) && has id d.selected))
unfolding handle all_eligible_selected
ticked_all-selected documents d =
    let es = eligible_documents documents in
    let found : (id : String)
        → listed id es ≡ true
        → has id (select_all es true d.selected) ≡ true =
      λ id h. has-select_all es true id d.selected ∙ rw h refl in
    (
      (λ id.
          has-select_all es true id d.selected
          ∙ ap (λ b. b || has id d.selected) (listed-eligible_documents id documents)),
      ground (
        arith,
        every_present es es (select_all es true d.selected) (λ id h. h) found,
        some_eligible documents,
      ),
      λ id.
          has-select_all es false id d.selected
          ∙ ap (λ b. not b && has id d.selected) (listed-eligible_documents id documents),
    )

-- Some request was rejected.
abbrev pub any_rejected : List Bool → Bool
any_rejected rejected = any (λ r. r) rejected

pub failed_ids-cases :
    (ts : List Document) (rs : List Bool)
    → length rs ≡ length ts
    → (failed_ids ts rs ≡ []) ↔ (any_rejected rs ≡ false)
unfolding failed_ids
failed_ids-cases [] [] h = ((λ _. refl), λ _. refl)
failed_ids-cases [] (r ∷ rs) h = absurd (ground arith)
failed_ids-cases (t ∷ ts) [] h = absurd (ground arith)
failed_ids-cases (t ∷ ts) (true ∷ rs) h = ((λ e. ground arith), λ e. ground arith)
failed_ids-cases (t ∷ ts) (false ∷ rs) h = failed_ids-cases ts rs (omega arith)

finished :
    (ids : List String) (rejected : Bool) (d : Dashboard)
    → (ids ≡ []) ↔ (rejected ≡ false)
    → (let t = finish_bulk_delete ids d in
        ((rejected ≡ false)
          × (t.selected ≡ [])
          × (t.selection_mode ≡ false)
          × (t.dialog_open ≡ false)
          × (t.delete_error ≡ none))
        ⊎ ((rejected ≡ true)
            × (t.selected ≡ ids)
            × (t.selection_mode ≡ d.selection_mode)
            × (t.dialog_open ≡ d.dialog_open)
            × (is_some t.delete_error ≡ true)))
unfolding finish_bulk_delete
finished [] rejected d h = inl (h.0 refl, refl, refl, refl, refl)
finished (id ∷ ids) true d h = inr (refl, refl, refl, refl, refl)
finished (id ∷ ids) false d h = absurd (ground (arith, h.1 refl))

-- Each target of a bulk deletion has an answer. If none is a rejection, the selection is emptied and
-- the dialog is closed. Else just the targets that were rejected stay selected, the dialog stays as
-- it was, and it shows an error.
pub deleted-outcome :
    (mode : DeleteMode) (targets : List Document) (rejected : List Bool) (d : Dashboard)
    → length rejected ≡ length (actionable_targets mode targets)
    → (let t = handle (deleted mode targets rejected) d in
        ((any_rejected rejected ≡ false)
          × (t.selected ≡ [])
          × (t.selection_mode ≡ false)
          × (t.dialog_open ≡ false)
          × (t.delete_error ≡ none))
        ⊎ ((any_rejected rejected ≡ true)
            × (t.selected ≡ failed_ids (actionable_targets mode targets) rejected)
            × (t.selection_mode ≡ d.selection_mode)
            × (t.dialog_open ≡ d.dialog_open)
            × (is_some t.delete_error ≡ true)))
unfolding handle
deleted-outcome mode targets rejected d h =
    finished (failed_ids (actionable_targets mode targets) rejected) (any_rejected rejected) d
      (failed_ids-cases (actionable_targets mode targets) rejected h)
