-- ===== src/UploadPage/Gate.antt =====
-- When upload-page.jsx starts a batch, and what is left to upload after one.
use cassist.Prelude.{
  ℕ, ◌+◌, ◌≤◌, ◌≡◌, ◌↔◌, refl, true, false, Option, none, some, List, [], ◌∷◌, eqb, is_some, length,
  filter, All, arith, or_false, length-append,
}
use cassist.UploadPage.{Capabilities, Quota, Item, pending, total_bytes}
use cassist.UploadPage.Submit.{
  Page, Outcome, done, was_cancelled, went_wrong, may_submit, end_submit, Ending, leave, stay,
  is_failed, is_cancelled, item_results, outcome_results,
}
use cassist.UploadPage.View.{
  Query, submit_disabled, unavailable, storage_full, selection_exceeds_quota,
}

-- There is something to upload, nothing is uploading, the quota is known and allows uploads, and the
-- pending files fit into what it leaves.
abbrev pub IsSubmittable : Page → Option Quota → Type 0
IsSubmittable page none = ⊥
IsSubmittable page (some quota) =
    (1 ≤ length (pending page.items))
    × (page.uploading ≡ false)
    × (quota.upload_allowed ≡ true)
    × (total_bytes (pending page.items) ≤ quota.available_bytes)

may_submit_iff :
    (page : Page) (quota : Option Quota) → (may_submit page quota ≡ true) ↔ IsSubmittable page quota
unfolding may_submit
may_submit_iff page none = ((λ h. ground arith), λ h. absurd h)
may_submit_iff page (some quota) =
    ((λ h. (ground arith, ground arith, ground arith, ground arith)), λ (a, b, c, d). ground arith)

submit_guard :
    (page : Page) (quota : Option Quota)
    → eqb (length (pending page.items)) 0 ≡ false
    → page.uploading ≡ false
    → storage_full quota ≡ false
    → selection_exceeds_quota quota page.items ≡ false
    → is_some quota ≡ true
    → IsSubmittable page quota
submit_guard page none a b c d e = ground arith
submit_guard page (some q) a b c d e = (ground arith, b, ground arith, ground arith)

-- Of the quota's query: without an error and when it is not pending, it has its data. Then a press
-- on the button that submits is never without effect where the button is enabled: `handleSubmit`
-- goes on, there is something to upload, nothing else is uploading, and the files fit the quota.
pub submit_enabled :
    (page : Page) (quota : Query Quota) (capabilities : Query Capabilities)
    → (unavailable quota ≡ false → is_some quota.data_of ≡ true)
    → submit_disabled page quota capabilities ≡ false
    → (may_submit page quota.data_of ≡ true) × IsSubmittable page quota.data_of
unfolding submit_disabled
submit_enabled page quota capabilities loaded h =
    let (h, exceeds) = or_false h in
    let (h, full) = or_false h in
    let (h, _) = or_false h in
    let (h, available) = or_false h in
    let (empty, busy) = or_false h in
    let ok = submit_guard page quota.data_of empty busy full exceeds (loaded available) in
    ((may_submit_iff page quota.data_of).1 ok, ok)

outcome_counts :
    (os : List Outcome)
    → length (filter is_failed os) + length (filter is_cancelled os) + length (outcome_results os)
      ≡ length os
outcome_counts [] = omega arith
outcome_counts (done r ∷ os) = omega (arith, outcome_counts os)
outcome_counts (was_cancelled ∷ os) = omega (arith, outcome_counts os)
outcome_counts (went_wrong e ∷ os) = omega (arith, outcome_counts os)

abbrev pub IsDone : Outcome → Type 0
IsDone (done _) = Unit
IsDone _ = ⊥

IsDone-none :
    (os : List Outcome)
    → length (filter is_failed os) ≡ 0
    → length (filter is_cancelled os) ≡ 0
    → All IsDone os
IsDone-none [] f c = tt
IsDone-none (done r ∷ os) f c = (tt, IsDone-none os f c)
IsDone-none (was_cancelled ∷ os) f c = ground arith
IsDone-none (went_wrong e ∷ os) f c = ground arith

none-IsDone :
    (os : List Outcome)
    → All IsDone os
    → (length (filter is_failed os) ≡ 0) × (length (filter is_cancelled os) ≡ 0)
none-IsDone [] h = (refl, refl)
none-IsDone (done r ∷ os) h = none-IsDone os h.1
none-IsDone (was_cancelled ∷ os) h = absurd h.0
none-IsDone (went_wrong e ∷ os) h = absurd h.0

-- The page is left, and `n` uploads are announced.
abbrev pub IsLeft : ℕ → Ending → Type 0
IsLeft n (leave _ count) = count ≡ n
IsLeft n (stay _) = ⊥

pub IsLeft-IsDone :
    (n : ℕ) (items : List Item) (os : List Outcome) → IsLeft n (end_submit items os) → All IsDone os
unfolding end_submit
IsLeft-IsDone n items os h = IsDone-none os (ground arith) (ground arith)

-- For every batch, `handleSubmit` leaves the page if and only if no upload failed or was
-- cancelled, and it then announces the uploads of this batch and of those before it.
pub end_submit_iff :
    (items : List Item) (os : List Outcome)
    → IsLeft (length (item_results items) + length os) (end_submit items os) ↔ All IsDone os
unfolding end_submit
end_submit_iff items os = (
  IsLeft-IsDone (length (item_results items) + length os) items os,
  λ h.
      let (f, c) = none-IsDone os h in
      rw (f, c)
        (omega (
          arith,
          length-append (item_results items) (outcome_results os),
          outcome_counts os,
          f,
          c,
        )),
)
