-- ===== src/Preview/Numbers.antt =====
-- What the previews use of JavaScript's numbers, with the laws of IEEE doubles they rely on.
use cassist.Prelude.{
  ℕ, zero, suc, ◌+◌, ◌-◌, ◌*◌, ◌/◌, ◌≡◌, ◌⊎◌, inl, inr, refl, Bool, true, false, not, leb, ltb,
  arith, Bool-cases, ◌||◌, if◌then◌else◌,
}

-- `whole` is the number of a size in pixels, a page or a constant, which is finite; `least` and
-- `greatest` are `Math.min` and `Math.max`, `rounded` and `ceiled` are `Math.round` and `Math.ceil`.
pub record Numbers {ℓ} (W : Type ℓ) : Type ℓ where
  pub whole : ℕ → W
  pub half : W
  pub quarter : W
  pub plus : W → W → W
  pub minus : W → W → W
  pub times : W → W → W
  pub over : W → W → W
  pub negated : W → W
  pub le : W → W → Bool
  pub lt : W → W → Bool
  pub least : W → W → W
  pub greatest : W → W → W
  pub rounded : W → ℕ
  pub ceiled : W → ℕ

-- NaN is the value that is not `<=` itself.
abbrev pub IsNumber {ℓ} : {W : Type ℓ} ⦃n : Numbers W⦄ → W → Type 0
IsNumber ⦃n⦄ x = n.le x x ≡ true

-- Neither zero nor NaN.
abbrev pub truthy {ℓ} : {W : Type ℓ} ⦃n : Numbers W⦄ → W → Bool
truthy ⦃n⦄ x = n.lt (n.whole 0) x || n.lt x (n.whole 0)

pub record IsOrdered {ℓ} (W : Type ℓ) ⦃n : Numbers W⦄ : Type ℓ where
  pub whole_number : (k : ℕ) → IsNumber (n.whole k)
  pub numbers_of_le : (x y : W) → n.le x y ≡ true → IsNumber x × IsNumber y
  pub le_trans : (x y z : W) → n.le x y ≡ true → n.le y z ≡ true → n.le x z ≡ true
  pub lt-eq-not-le : (x y : W) → IsNumber x → IsNumber y → n.lt x y ≡ not (n.le y x)
  pub le_total : (x y : W) → IsNumber x → IsNumber y → (n.le x y ≡ true) ⊎ (n.le y x ≡ true)
  -- `Math.min` and `Math.max` give one of two numbers.
  pub least_one :
      (x y : W)
      → IsNumber x
      → IsNumber y
      → ((n.least x y ≡ x) × (n.le x y ≡ true)) ⊎ ((n.least x y ≡ y) × (n.le y x ≡ true))
  pub greatest_one :
      (x y : W)
      → IsNumber x
      → IsNumber y
      → ((n.greatest x y ≡ y) × (n.le x y ≡ true)) ⊎ ((n.greatest x y ≡ x) × (n.le y x ≡ true))
  pub half_le : n.le n.half (n.whole 3) ≡ true
  pub half_le_one : n.le n.half (n.whole 1) ≡ true
  pub one_le : n.le (n.whole 1) (n.whole 3) ≡ true
  -- A finite number added to or taken from a number, and one divided by a number, give a number.
  pub plus_number : (x : W) → IsNumber x → IsNumber (n.plus x n.quarter)
  pub minus_number : (x : W) → IsNumber x → IsNumber (n.minus x n.quarter)
  pub over_number : (k : ℕ) (x : W) → IsNumber x → IsNumber (n.over (n.whole (suc k)) x)
  pub negated_le : (x : W) → n.le (n.whole 0) x ≡ true → n.le (n.negated x) x ≡ true

module _ {ℓ} {W : Type ℓ} ⦃n : Numbers W⦄ where
  -- `Math.min(high, Math.max(low, x))`
  abbrev pub bounded : W → W → W → W
  bounded low high x = n.least high (n.greatest low x)

  pub bounded-IsBetween :
      IsOrdered W
      → (low high x : W) → n.le low high ≡ true
      → IsNumber x
      → (n.le low (bounded low high x) ≡ true) × (n.le (bounded low high x) high ≡ true)
  bounded-IsBetween laws low high x order number =
      let (l, h) = laws.numbers_of_le low high order in
      elim (laws.greatest_one low x l number) [
        | inl (e, more) ↦
            rw (e, bounded)
              (elim (laws.least_one high x h number) [
                | inl (f, top) ↦ rw f (order, h)
                | inr (f, under) ↦ rw f (more, under)
              ])
        | inr (e, less) ↦
            rw (e, bounded)
              (elim (laws.least_one high low h l) [
                | inl (f, top) ↦ rw f (order, h)
                | inr (f, under) ↦ rw f (l, order)
              ])
      ]

  pub least-IsNumber : IsOrdered W → (x y : W) → IsNumber x → IsNumber y → IsNumber (n.least x y)
  least-IsNumber laws x y hx hy = elim (laws.least_one x y hx hy) [
    | inl (e, _) ↦ rw e hx
    | inr (e, _) ↦ rw e hy
  ]

-- The laws can be met: whole numbers of quarters, where a division by zero gives zero.
pub data Quarters : Type 0 where
  pos : ℕ → Quarters
  negsuc : ℕ → Quarters

abbrev difference : ℕ → ℕ → Quarters
difference a b = if ltb a b then negsuc (b - a - 1) else pos (a - b)

abbrev negate : Quarters → Quarters
negate (pos a) = difference 0 a
negate (negsuc a) = pos (suc a)

abbrev add : Quarters → Quarters → Quarters
add (pos a) (pos b) = pos (a + b)
add (pos a) (negsuc b) = difference a (suc b)
add (negsuc a) (pos b) = difference b (suc a)
add (negsuc a) (negsuc b) = negsuc (suc (a + b))

-- A product or a quotient of the sizes, with its sign.
abbrev signed : (ℕ → ℕ → ℕ) → Quarters → Quarters → Quarters
signed f (pos a) (pos b) = pos (f a b)
signed f (pos a) (negsuc b) = difference 0 (f a (suc b))
signed f (negsuc a) (pos b) = difference 0 (f (suc a) b)
signed f (negsuc a) (negsuc b) = pos (f (suc a) (suc b))

abbrev at_most : Quarters → Quarters → Bool
at_most (pos a) (pos b) = leb a b
at_most (pos a) (negsuc b) = false
at_most (negsuc a) (pos b) = true
at_most (negsuc a) (negsuc b) = leb b a

abbrev size : Quarters → ℕ
size (pos a) = a
size (negsuc a) = 0

instance abbrev pub quarters_numbers : Numbers Quarters
quarters_numbers = record {
  whole = λ k. pos (4 * k);
  half = pos 2;
  quarter = pos 1;
  plus = add;
  minus = λ x y. add x (negate y);
  times = signed (λ a b. a * b / 4);
  over = signed (λ a b. if leb b 0 then 0 else 4 * a / b);
  negated = negate;
  le = at_most;
  lt = λ x y. not (at_most y x);
  least = λ x y. if at_most x y then x else y;
  greatest = λ x y. if at_most x y then y else x;
  rounded = λ x. (size x + 2) / 4;
  ceiled = λ x. (size x + 3) / 4;
}

at_most_refl : (x : Quarters) → at_most x x ≡ true
at_most_refl (pos a) = ground arith
at_most_refl (negsuc a) = ground arith

at_most_trans : (x y z : Quarters) → at_most x y ≡ true → at_most y z ≡ true → at_most x z ≡ true
at_most_trans (pos a) (pos b) (pos c) = ground arith
at_most_trans (pos a) (pos b) (negsuc c) = ground arith
at_most_trans (pos a) (negsuc b) z = ground arith
at_most_trans (negsuc a) y (pos c) = ground arith
at_most_trans (negsuc a) (pos b) (negsuc c) = ground arith
at_most_trans (negsuc a) (negsuc b) (negsuc c) = ground arith

at_most_total : (x y : Quarters) → (at_most x y ≡ true) ⊎ (at_most y x ≡ true)
at_most_total (pos a) (pos b) = ground arith
at_most_total (pos a) (negsuc b) = inr refl
at_most_total (negsuc a) (pos b) = inl refl
at_most_total (negsuc a) (negsuc b) = ground arith

least_cases :
    (x y : Quarters)
    → (((if at_most x y then x else y) ≡ x) × (at_most x y ≡ true))
      ⊎ (((if at_most x y then x else y) ≡ y) × (at_most y x ≡ true))
least_cases x y = elim (Bool-cases (at_most x y)) [
  | inl e ↦ rw e (inl (refl, refl))
  | inr e ↦ elim (at_most_total x y) [ inl f ↦ ground arith | inr f ↦ rw e (inr (refl, f)) ]
]

greatest_cases :
    (x y : Quarters)
    → (((if at_most x y then y else x) ≡ y) × (at_most x y ≡ true))
      ⊎ (((if at_most x y then y else x) ≡ x) × (at_most y x ≡ true))
greatest_cases x y = elim (Bool-cases (at_most x y)) [
  | inl e ↦ rw e (inl (refl, refl))
  | inr e ↦ elim (at_most_total x y) [ inl f ↦ ground arith | inr f ↦ rw e (inr (refl, f)) ]
]

negate-at_most : (x : Quarters) → at_most (pos 0) x ≡ true → at_most (negate x) x ≡ true
negate-at_most (pos zero) h = refl
negate-at_most (pos (suc a)) h = ground arith
negate-at_most (negsuc a) h = ground arith

pub Quarters-IsOrdered : IsOrdered Quarters
Quarters-IsOrdered = record {
  whole_number = λ k. at_most_refl (pos (4 * k));
  numbers_of_le = λ x y _. (at_most_refl x, at_most_refl y);
  le_trans = at_most_trans;
  lt-eq-not-le = λ x y _ _. refl;
  le_total = λ x y _ _. at_most_total x y;
  least_one = λ x y _ _. least_cases x y;
  greatest_one = λ x y _ _. greatest_cases x y;
  half_le = refl;
  half_le_one = refl;
  one_le = refl;
  plus_number = λ x _. at_most_refl (add x (pos 1));
  minus_number = λ x _. at_most_refl (add x (negate (pos 1)));
  over_number =
      λ k x _. at_most_refl (signed (λ a b. if leb b 0 then 0 else 4 * a / b) (pos (4 * suc k)) x);
  negated_le = negate-at_most;
}
