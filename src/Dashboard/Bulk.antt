-- ===== src/Dashboard/Bulk.antt =====
-- The bulk deletion of dashboard-page.jsx with the requests of frontend/src/lib/api.js: the queue of
-- the mutations sends them one after the other, in the order of the targets. Other requests that
-- the browser may send meanwhile have no part in the log here.
use Prim.Native.String.{◌++◌ as append}
use cassist.Prelude.{
  ◌↔◌, has, filter, eq_iff, arith, ◌≡◌, ◌⊎◌, inl, inr, refl, ap, sym, ◌∙◌, String, Bool, Bool-cases,
  ◌==◌, ◌||◌, true, false, none, List, [], ◌∷◌, ◌++◌, length, is_some, append_assoc, or_false,
  true-ne-false, suc,
}
use cassist.Api.World.{Error, Result, ok, err, Client, World, Log, get, delete}
use cassist.Api.Mutations.{
  bare, send, delete_document_original, permanently_delete_document, Mutation, deleting_original,
  deleting, mutate,
}
use cassist.Api.Inversion.{Wire, call, requests, Result-cases, ok-ne-err}
use cassist.Api.Upload.Order.{Sends, Is, Sends-csrf_request, bind_quiet, IsQuiet-ensure_ok}
use cassist.Dashboard.{
  Dashboard, Document, DeleteMode, original, permanent, actionable_targets, failed_ids, deleted,
  handle,
}
use cassist.Dashboard.Selection.{any_rejected, failed_ids-cases, deleted-outcome}

unfoldable pub delete_target : DeleteMode → Document → Client (Unit {0})
unfolding delete_document_original permanently_delete_document
delete_target original document = delete_document_original document.id
delete_target permanent document = permanently_delete_document document.id

abbrev pub is_rejected : {A : Type 0} → Result A → Bool
is_rejected (ok a) = false
is_rejected (err e) = true

-- `Promise.allSettled` of the targets' requests: whether each is rejected, in the targets' order.
unfoldable pub settle_each : DeleteMode → List Document → World → Log → List Bool × Log
unfolding delete_target
settle_each mode [] w l = ([], l)
settle_each mode (document ∷ documents) w l =
    let (result, l') = delete_target mode document w l in
    let (rejected, l'') = settle_each mode documents w l' in (is_rejected result ∷ rejected, l'')

-- The whole of it: what is sent, and what `onSuccess` does with the outcomes.
unfoldable pub bulk_delete : DeleteMode → List Document → World → Log → Dashboard → Dashboard × Log
unfolding settle_each actionable_targets handle
bulk_delete mode targets w l d =
    let (rejected, l') = settle_each mode (actionable_targets mode targets) w l in
    (handle (deleted mode targets rejected) d, l')

-- What a target's deletion sends, newest first.
abbrev pub asked_for : DeleteMode → Document → List Wire
asked_for original document =
    call delete (append "/documents/" (append document.id "/original")) ∷ call get "/auth/csrf" ∷ []
asked_for permanent document =
    call delete (append "/documents/" document.id) ∷ call get "/auth/csrf" ∷ []

abbrev pub asked_for_each : DeleteMode → List Document → List Wire
asked_for_each mode [] = []
asked_for_each mode (document ∷ documents) =
    asked_for_each mode documents ++ asked_for mode document

length-settle_each :
    (mode : DeleteMode) (documents : List Document) (w : World) (l : Log)
    → length (settle_each mode documents w l).0 ≡ length documents
unfolding settle_each
length-settle_each mode [] w l = refl
length-settle_each mode (document ∷ documents) w l =
    ap suc (length-settle_each mode documents w (delete_target mode document w l).1)

Sends-send :
    (path fallback : String)
    → Sends (send path (bare delete) fallback) (Is (call delete path ∷ call get "/auth/csrf" ∷ []))
Sends-send path fallback =
    bind_quiet (Sends-csrf_request path (bare delete) refl refl) (λ r. IsQuiet-ensure_ok r fallback)

Sends-delete_target :
    (mode : DeleteMode) (document : Document)
    → Sends (delete_target mode document) (Is (asked_for mode document))
unfolding delete_target delete_document_original permanently_delete_document
Sends-delete_target original document = Sends-send _ _
Sends-delete_target permanent document = Sends-send _ _

requests-settle_each :
    (mode : DeleteMode) (documents : List Document) (w : World) (l : Log)
    → any_rejected (settle_each mode documents w l).0 ≡ false
    → requests (settle_each mode documents w l).1 ≡ asked_for_each mode documents ++ requests l
unfolding settle_each
requests-settle_each mode [] w l h = refl
requests-settle_each mode (document ∷ documents) w l h =
    let first = delete_target mode document w l in
    let (accepted, others) = or_false h in
    let later = requests-settle_each mode documents w first.1 others in
    elim (Result-cases first.0) [
      | inr (e, failed) ↦ absurd (true-ne-false (sym (ap is_rejected failed) ∙ accepted))
      | inl (a, fine) ↦
          let (ws, is, sent) =
            (Sends-delete_target mode document).at w l first.1 a (ap (λ r. (r, first.1)) fine) in
          later
          ∙ ap (λ r. asked_for_each mode documents ++ r) (sent ∙ ap (λ v. v ++ requests l) is)
          ∙ sym
              (append_assoc (asked_for_each mode documents) (asked_for mode document) (requests l))
    ]

-- The deletion that a target asks for.
abbrev pub deletion : DeleteMode → Document → Mutation
deletion original document = deleting_original document.id
deletion permanent document = deleting document.id

-- Deleting the original acts on those that have one.
abbrev pub acts : DeleteMode → Document → Bool
acts original document = document.original_available
acts permanent document = true

-- The deletions are asked for one after the other, and that of a target with this id is rejected.
abbrev pub Fails : DeleteMode → List Document → World → Log → String → Type 0
Fails mode [] w l id = ⊥
Fails mode (document ∷ documents) w l id =
    let answer = mutate (deletion mode document) w l in
    ((document.id ≡ id) × ((e : Error) × (answer.0 ≡ err e))) ⊎ Fails mode documents w answer.1 id

mutate-deletion :
    (mode : DeleteMode) (d : Document) (w : World) (l : Log)
    → delete_target mode d w l ≡ mutate (deletion mode d) w l
unfolding delete_target mutate
mutate-deletion original d w l = refl
mutate-deletion permanent d w l = refl

actionable_targets-acts :
    (mode : DeleteMode) (ts : List Document) → actionable_targets mode ts ≡ filter (acts mode) ts
unfolding actionable_targets
actionable_targets-acts original ts = refl
actionable_targets-acts permanent [] = refl
actionable_targets-acts permanent (t ∷ ts) = ap (λ r. t ∷ r) (actionable_targets-acts permanent ts)

failed_ids-Fails :
    (mode : DeleteMode) (ts : List Document) (w : World) (l : Log) (id : String)
    → (has id (failed_ids ts (settle_each mode ts w l).0) ≡ true) ↔ Fails mode ts w l id
unfolding failed_ids settle_each
failed_ids-Fails mode [] w l id = ((λ h. ground arith), λ h. absurd h)
failed_ids-Fails mode (t ∷ ts) w l id =
    let (later, earlier) = failed_ids-Fails mode ts w (mutate (deletion mode t) w l).1 id in
    rw (mutate-deletion mode t w l) (elim (Result-cases (mutate (deletion mode t) w l).0) [
      | inl (a, fine) ↦ rw fine (
        (λ h. inr (later h)),
        λ h. elim h [ inl (_, (e, failed)) ↦ absurd (ok-ne-err failed) | inr f ↦ earlier f ],
      )
      | inr (e, failed) ↦ rw failed (
        (λ h. elim (Bool-cases (t.id == id)) [
          | inl same ↦ inl ((eq_iff t.id id).0 same, (e, refl))
          | inr other ↦ inr (later (ground arith))
        ]),
        λ h. elim h [
          | inl (same, _) ↦ rw ((eq_iff t.id id).1 same) refl
          | inr f ↦ ground (arith, earlier f)
        ],
      )
    ])

nothing_selected : (id : String) → has id [] ≡ true → ⊥
nothing_selected id h = ground arith

rest_rejected : {a b : Bool} → a ≡ false → (a || b) ≡ true → b ≡ true
rest_rejected e h = ground arith

some_Fails :
    (mode : DeleteMode) (ts : List Document) (w : World) (l : Log)
    → any_rejected (settle_each mode ts w l).0 ≡ true
    → (id : String) × Fails mode ts w l id
unfolding settle_each
some_Fails mode [] w l h = ground arith
some_Fails mode (t ∷ ts) w l h = elim (Result-cases (mutate (deletion mode t) w l).0) [
  | inr (e, failed) ↦ (t.id, inl (refl, (e, failed)))
  | inl (a, fine) ↦
      let same = mutate-deletion mode t w l in
      let accepted = ap is_rejected (ap (λ p. p.0) same ∙ fine) in
      let (id, f) = some_Fails mode ts w (mutate (deletion mode t) w l).1 (
        ap (λ p. any_rejected (settle_each mode ts w p.1).0) (sym same)
        ∙ rest_rejected accepted h) in
      (id, inr f)
]

-- Every target was asked to be deleted, in the order of the targets, and nothing else was sent; the
-- server confirmed each deletion, the selection is empty and the dialog is closed.
abbrev pub IsWholeDeletion : DeleteMode → List Document → World → Log → Dashboard × Log → Type 0
IsWholeDeletion mode targets w before (d, after) =
    (requests after ≡ asked_for_each mode (filter (acts mode) targets) ++ requests before)
    × ((id : String) → Fails mode (filter (acts mode) targets) w before id → ⊥)
    × (d.selected ≡ [])
    × (d.selection_mode ≡ false)
    × (d.dialog_open ≡ false)
    × (d.delete_error ≡ none)

-- Some deletion was rejected, just the targets whose own was stay selected, and an error is shown.
abbrev pub IsPartialDeletion : DeleteMode → List Document → World → Log → Dashboard × Log → Type 0
IsPartialDeletion mode targets w before (d, after) =
    ((id : String) × Fails mode (filter (acts mode) targets) w before id)
    × ((id : String)
        → (has id d.selected ≡ true) ↔ Fails mode (filter (acts mode) targets) w before id)
    × (is_some d.delete_error ≡ true)

-- A bulk deletion, whatever the server and the network do. It acts on all targets, and where just the
-- originals are deleted on those that have one. Either none of their deletions is rejected; then it
-- has asked for a token and the deletion of each of them, in order, and for nothing else, and it ends
-- with an empty selection and a closed dialog. Or some deletion was rejected; then just the ids of the
-- targets whose deletion was rejected are selected, and an error is shown.
pub bulk_delete-outcome :
    (mode : DeleteMode) (targets : List Document) (w : World) (l : Log) (d : Dashboard)
    → IsWholeDeletion mode targets w l (bulk_delete mode targets w l d)
      ⊎ IsPartialDeletion mode targets w l (bulk_delete mode targets w l d)
unfolding bulk_delete
bulk_delete-outcome mode targets w l d =
    let ts = actionable_targets mode targets in
    let settled = settle_each mode ts w l in
    rw (← actionable_targets-acts mode targets)
      (elim (deleted-outcome mode targets settled.0 d (length-settle_each mode ts w l)) [
        | inl (all_done, selected, selecting, closed, no_error) ↦ inl (
          requests-settle_each mode ts w l all_done,
          (λ id fails. nothing_selected id (
              ap (has id)
                (sym ((failed_ids-cases ts settled.0 (length-settle_each mode ts w l)).1 all_done))
              ∙ (failed_ids-Fails mode ts w l id).1 fails)),
          selected,
          selecting,
          closed,
          no_error,
        )
        | inr (some_failed, selected, _, _, shown) ↦ inr (
          some_Fails mode ts w l some_failed,
          (λ id. rw selected (failed_ids-Fails mode ts w l id)),
          shown,
        )
      ])
