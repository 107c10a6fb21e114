-- ===== src/Preview/Pdf/Visible.antt =====
-- The page that is current after a scroll: the callback of the observer of the pages.
use cassist.Prelude.{
  ℕ, ◌≡◌, ◌⊎◌, inl, inr, refl, true, false, not, Option, none, some, List, [], ◌∷◌, All,
  if◌then◌else◌, eqb, arith, Bool-cases, get_elem?, ap, sym, ◌∙◌, suc, true-ne-false,
}
use cassist.Preview.Numbers.{Numbers, IsNumber, IsOrdered}

-- A page with the share of it that is visible.
pub record Ratio {ℓ} (W : Type ℓ) : Type ℓ where
  pub page_number : ℕ
  pub ratio : W

module _ {ℓ} {W : Type ℓ} where
  -- `visibility.set`, which keeps the place of a page that the map has
  unfoldable pub set_ratio : Ratio W → List (Ratio W) → List (Ratio W)
  set_ratio e [] = e ∷ []
  set_ratio e (v ∷ vs) =
      let rest = set_ratio e vs in if eqb v.page_number e.page_number then e ∷ vs else v ∷ rest

  unfoldable pub set_ratios : List (Ratio W) → List (Ratio W) → List (Ratio W)
  unfolding set_ratio
  set_ratios [] visibility = visibility
  set_ratios (e ∷ es) visibility = set_ratios es (set_ratio e visibility)

module _ {ℓ} {W : Type ℓ} ⦃n : Numbers W⦄ where
  -- The loop that keeps the first page with the greatest ratio.
  unfoldable pub most_visible : Ratio W → List (Ratio W) → Ratio W
  most_visible best [] = best
  most_visible best (v ∷ vs) =
      let skipped = most_visible best vs in
      let taken = most_visible v vs in if n.lt best.ratio v.ratio then taken else skipped

  -- `visiblePage` and `visibleRatio` before the loop
  abbrev pub unseen : Ratio W
  unseen = record { page_number = 1; ratio = n.whole 0 }

  -- The page that becomes the current one, if any.
  unfoldable pub visible_page : List (Ratio W) → Option ℕ
  unfolding most_visible
  visible_page visibility =
      let best = most_visible unseen visibility in
      if n.lt (n.whole 0) best.ratio then some best.page_number else none

  abbrev pub NoneAbove : W → List (Ratio W) → Type 0
  NoneAbove top visibility = All (λ v. n.le v.ratio top ≡ true) visibility

  abbrev pub AllNumbers : List (Ratio W) → Type 0
  AllNumbers visibility = All (λ v. IsNumber v.ratio) visibility

  -- A page with at least the first one's ratio, which no page is above.
  record IsTop (first : Ratio W) (visibility : List (Ratio W)) (top : Ratio W) : Type 0 where
    over_first : n.le first.ratio top.ratio ≡ true
    none_above : NoneAbove top.ratio visibility

  -- No page, where nothing is visible, or a visible one that no page is above.
  pub data IsMostVisible (visibility : List (Ratio W)) : Option ℕ → Type ℓ where
    nothing_visible : NoneAbove (n.whole 0) visibility → IsMostVisible visibility none
    best_visible :
        (v : Ratio W) (i : ℕ)
        → get_elem? visibility i ≡ some v
        → n.lt (n.whole 0) v.ratio ≡ true
        → NoneAbove v.ratio visibility
        → IsMostVisible visibility (some v.page_number)

module _ {ℓ} {W : Type ℓ} ⦃n : Numbers W⦄ (laws : IsOrdered W) where
  above_le : (a b : W) → IsNumber a → IsNumber b → n.lt a b ≡ true → n.le a b ≡ true
  above_le a b ha hb h = elim (laws.le_total a b ha hb) [
    | inl e ↦ e
    | inr e ↦ ground (arith, laws.lt-eq-not-le a b ha hb)
  ]

  below_le : (a b : W) → IsNumber a → IsNumber b → n.lt a b ≡ false → n.le b a ≡ true
  below_le a b ha hb h = ground (arith, laws.lt-eq-not-le a b ha hb)

  most_visible_taken :
      (best v : Ratio W) (vs : List (Ratio W))
      → n.lt best.ratio v.ratio ≡ true
      → most_visible best (v ∷ vs) ≡ most_visible v vs
  unfolding most_visible
  most_visible_taken best v vs h = rw h refl

  most_visible_skipped :
      (best v : Ratio W) (vs : List (Ratio W))
      → n.lt best.ratio v.ratio ≡ false
      → most_visible best (v ∷ vs) ≡ most_visible best vs
  unfolding most_visible
  most_visible_skipped best v vs h = rw h refl

  most_visible_nil : (best : Ratio W) → most_visible best [] ≡ best
  unfolding most_visible
  most_visible_nil best = refl

  most_visible-IsTop :
      (best : Ratio W) (vs : List (Ratio W))
      → IsNumber best.ratio
      → AllNumbers vs
      → IsTop best vs (most_visible best vs)
  most_visible-IsTop best [] hb h =
      rw (most_visible_nil best) (record { over_first = hb; none_above = tt })
  most_visible-IsTop best (v ∷ vs) hb h = elim (Bool-cases (n.lt best.ratio v.ratio)) [
    | inl e ↦
        let t = most_visible-IsTop v vs h.0 h.1 in
        let r = (most_visible v vs).ratio in
        let up = above_le best.ratio v.ratio hb h.0 e in
        rw (most_visible_taken best v vs e) (record {
          over_first = laws.le_trans best.ratio v.ratio r up t.over_first;
          none_above = (t.over_first, t.none_above);
        })
    | inr e ↦
        let t = most_visible-IsTop best vs hb h.1 in
        let r = (most_visible best vs).ratio in
        let up = below_le best.ratio v.ratio hb h.0 e in
        rw (most_visible_skipped best v vs e) (record {
          over_first = t.over_first;
          none_above = (laws.le_trans v.ratio best.ratio r up t.over_first, t.none_above);
        })
  ]

  most_visible-place :
      (best : Ratio W) (vs : List (Ratio W))
      → (most_visible best vs ≡ best) ⊎ ((i : ℕ) × (get_elem? vs i ≡ some (most_visible best vs)))
  most_visible-place best [] = inl (most_visible_nil best)
  most_visible-place best (v ∷ vs) = elim (Bool-cases (n.lt best.ratio v.ratio)) [
    | inl e ↦ rw (most_visible_taken best v vs e) (elim (most_visible-place v vs) [
      | inl f ↦ inr (0, ap some (sym f))
      | inr (i, f) ↦ inr (suc i, f)
    ])
    | inr e ↦
        rw (most_visible_skipped best v vs e)
          (elim (most_visible-place best vs) [ inl f ↦ inl f | inr (i, f) ↦ inr (suc i, f) ])
  ]

  below-NoneAbove :
      (top low : W) (vs : List (Ratio W))
      → n.le top low ≡ true
      → NoneAbove top vs
      → NoneAbove low vs
  below-NoneAbove top low [] h above = tt
  below-NoneAbove top low (v ∷ vs) h above =
      (laws.le_trans v.ratio top low above.0 h, below-NoneAbove top low vs h above.1)

  unseen_hidden : (v : Ratio W) → v ≡ unseen → n.lt (n.whole 0) v.ratio ≡ false
  unseen_hidden v h =
      let z = laws.whole_number 0 in rw h (laws.lt-eq-not-le (n.whole 0) (n.whole 0) z z ∙ ap not z)

  -- Numbers that follow the laws of `IsOrdered`, and ratios that are numbers: the page that becomes
  -- the current one is visible and none has a greater ratio, or no page becomes it and no page is
  -- visible.
  pub visible_page-IsMostVisible :
      (vs : List (Ratio W)) → AllNumbers vs → IsMostVisible vs (visible_page vs)
  unfolding visible_page
  visible_page-IsMostVisible vs h =
      let best = most_visible unseen vs in
      let t = most_visible-IsTop unseen vs (laws.whole_number 0) h in
      let (zero_number, number) = laws.numbers_of_le (n.whole 0) best.ratio t.over_first in
      elim (Bool-cases (n.lt (n.whole 0) best.ratio)) [
        | inl e ↦ rw e (elim (most_visible-place unseen vs) [
          | inl f ↦ absurd (true-ne-false (sym e ∙ unseen_hidden best f))
          | inr (i, f) ↦ best_visible best i f e t.none_above
        ])
        | inr e ↦
            let low = below_le (n.whole 0) best.ratio zero_number number e in
            rw e (nothing_visible (below-NoneAbove best.ratio (n.whole 0) vs low t.none_above))
      ]
