-- ===== src/Prelude/Lists.antt =====
-- Lists as the Rust code walks them: `len`, `iter().any`, `iter().find`, `retain` and
-- `iter_mut().find`, with Boolean tests.
use Prim.Native.Nat.{ℕ, zero, suc, ◌+◌, ◌-◌, ◌≤◌}
use mathlib.Core.Path.{◌≡◌, refl}
use mathlib.Core.Bool.{Bool, true, false, not, ◌&&◌, ◌||◌}
use mathlib.Core.List.{List, [], ◌∷◌, ◌++◌, reverse, reverse-append, append_assoc}
use mathlib.Core.Logic.{inl, inr}
use mathlib.Core.Option.{Option, none, some}
use native.Mathlib.Omega.{arith}
use omnisec.Prelude.Tests.{if◌then◌else◌, Bool-cases}

module _ {ℓ} {A : Type ℓ} where
  abbrev pub length : List A → ℕ
  length [] = 0
  length (x ∷ xs) = suc (length xs)

  abbrev pub get_elem? : List A → ℕ → Option A
  get_elem? [] i = none
  get_elem? (x ∷ xs) zero = some x
  get_elem? (x ∷ xs) (suc i) = get_elem? xs i

  abbrev pub take : ℕ → List A → List A
  take zero xs = []
  take (suc n) [] = []
  take (suc n) (x ∷ xs) = x ∷ take n xs

  abbrev pub drop : ℕ → List A → List A
  drop zero xs = xs
  drop (suc n) [] = []
  drop (suc n) (x ∷ xs) = drop n xs

  abbrev pub is_empty : List A → Bool
  is_empty [] = true
  is_empty (x ∷ xs) = false

  pub length-append : (xs ys : List A) → length (xs ++ ys) ≡ length xs + length ys
  length-append [] ys = omega arith
  length-append (x ∷ xs) ys = omega (arith, length-append xs ys)

  pub length-drop : (n : ℕ) (xs : List A) → length (drop n xs) ≡ length xs - n
  length-drop zero xs = omega arith
  length-drop (suc n) [] = omega arith
  length-drop (suc n) (x ∷ xs) = omega (arith, length-drop n xs)

-- A predicate that holds of every element; it computes to a tuple.
abbrev pub All {ℓ κ} : {A : Type ℓ} → (A → Type κ) → List A → Type κ
All P [] = Unit
All P (x ∷ xs) = P x × All P xs

module _ {ℓ κ} {A : Type ℓ} (P : A → Type κ) where
  pub All-append : (xs ys : List A) → All P xs → All P ys → All P (xs ++ ys)
  All-append [] ys hx hy = hy
  All-append (x ∷ xs) ys hx hy = (hx.0, All-append xs ys hx.1 hy)

module _ {ℓ κ} {A : Type ℓ} (P : A → Type κ) where
  pub All-reverse : (xs : List A) → All P xs → All P (reverse xs)
  All-reverse [] h = tt
  All-reverse (x ∷ xs) h =
      rw (reverse-append (x ∷ []) xs)
        (All-append P (reverse xs) (x ∷ []) (All-reverse xs h.1) (h.0, tt))

module _ {ℓ κ λ₁ μ} {A : Type ℓ} {P : A → Type κ} {Q : A → Type λ₁} {R : A → Type μ} where
  pub All-both : ((x : A) → P x → Q x → R x) → (xs : List A) → All P xs → All Q xs → All R xs
  All-both f [] h k = tt
  All-both f (x ∷ xs) h k = (f x h.0 k.0, All-both f xs h.1 k.1)

module _ {ℓ κ λ₁} {A : Type ℓ} {P : A → Type κ} {Q : A → Type λ₁} where
  pub All-imp : ((x : A) → P x → Q x) → (xs : List A) → All P xs → All Q xs
  All-imp f [] h = tt
  All-imp f (x ∷ xs) h = (f x h.0, All-imp f xs h.1)

module _ {ℓ} {A : Type ℓ} (p : A → Bool) where
  -- `iter().any(p)`
  unfoldable pub any : List A → Bool
  any [] = false
  any (x ∷ xs) = p x || any xs

  -- `iter().all(p)`
  unfoldable pub all : List A → Bool
  all [] = true
  all (x ∷ xs) = p x && all xs

  -- `iter().find(p)`
  unfoldable pub find : List A → Option A
  find [] = none
  find (x ∷ xs) = if p x then some x else find xs

  -- `retain(p)`, and `iter().filter(p).collect()`
  unfoldable pub retain : List A → List A
  retain [] = []
  retain (x ∷ xs) = let rest = retain xs in if p x then x ∷ rest else rest

  -- `if let Some(x) = iter_mut().find(p) { f(x) }`
  unfoldable pub update_first : (A → A) → List A → List A
  update_first f [] = []
  update_first f (x ∷ xs) = let rest = update_first f xs in if p x then f x ∷ xs else x ∷ rest

module _ {ℓ} {A : Type ℓ} (p : A → Bool) where
  pub length-retain-le : (xs : List A) → length (retain p xs) ≤ length xs
  unfolding retain
  length-retain-le [] = omega arith
  length-retain-le (x ∷ xs) = ground (arith, length-retain-le xs)

  pub length-update_first : (f : A → A) (xs : List A) → length (update_first p f xs) ≡ length xs
  unfolding update_first
  length-update_first f [] = refl
  length-update_first f (x ∷ xs) = ground (arith, length-update_first f xs)

  pub find-holds : (xs : List A) (x : A) → find p xs ≡ some x → p x ≡ true
  unfolding find
  find-holds [] y h = cc
  find-holds (x ∷ xs) y h = ground (arith, find-holds xs y)

  pub any-append : (xs ys : List A) → any p (xs ++ ys) ≡ (any p xs || any p ys)
  unfolding any
  any-append [] ys = refl
  any-append (x ∷ xs) ys = ground (arith, any-append xs ys)

  pub find-retain-none : (xs : List A) → find p (retain (λ x. not (p x)) xs) ≡ none
  unfolding find retain
  find-retain-none [] = refl
  find-retain-none (x ∷ xs) = ground (arith, find-retain-none xs)

  pub find-append :
      (xs ys : List A) → find p (xs ++ ys) ≡ elim (find p xs) [ none ↦ find p ys | some x ↦ some x ]
  unfolding find
  find-append [] ys = refl
  find-append (x ∷ xs) ys = ground (arith, find-append xs ys)

  pub find-none : (xs : List A) → All (λ x. p x ≡ false) xs → find p xs ≡ none
  unfolding find
  find-none [] h = refl
  find-none (x ∷ xs) h = rw (h.0, find-none xs h.1)

  -- `iter().rev().find(p)` finds the last element that passes.
  pub find-reverse_last :
      (xs ys : List A) (x : A)
      → p x ≡ true
      → All (λ y. p y ≡ false) ys
      → find p (reverse (xs ++ x ∷ ys)) ≡ some x
  unfolding find
  find-reverse_last xs ys x h t = rw (
    reverse-append xs (x ∷ ys),
    reverse-append (x ∷ []) ys,
    append_assoc (reverse ys) (x ∷ []) (reverse xs),
    find-append (reverse ys) (x ∷ reverse xs),
    find-none (reverse ys) (All-reverse (λ y. p y ≡ false) ys t),
    h,
  )

  pub retain-append : (xs ys : List A) → retain p (xs ++ ys) ≡ retain p xs ++ retain p ys
  unfolding retain
  retain-append [] ys = refl
  retain-append (x ∷ xs) ys = ground (arith, retain-append xs ys)

  pub retain_none : (xs : List A) → All (λ x. p x ≡ false) xs → retain p xs ≡ []
  unfolding retain
  retain_none [] h = refl
  retain_none (x ∷ xs) h = rw (h.0, retain_none xs h.1)

  pub retain-All : (xs : List A) → All (λ x. p x ≡ true) xs → retain p xs ≡ xs
  unfolding retain
  retain-All [] h = refl
  retain-All (x ∷ xs) h = rw (h.0, retain-All xs h.1)

  pub All-retain : (xs : List A) → All (λ x. p x ≡ true) (retain p xs)
  unfolding retain
  All-retain [] = tt
  All-retain (x ∷ xs) = elim (Bool-cases (p x)) [
    | inl e ↦ rw e (e, All-retain xs)
    | inr e ↦ rw e (All-retain xs)
  ]

  pub All-retain_of {κ} : (P : A → Type κ) (xs : List A) → All P xs → All P (retain p xs)
  unfolding retain
  All-retain_of P [] h = tt
  All-retain_of P (x ∷ xs) h = elim (Bool-cases (p x)) [
    | inl e ↦ rw e (h.0, All-retain_of P xs h.1)
    | inr e ↦ rw e (All-retain_of P xs h.1)
  ]

  -- What is kept of the elements that pass another test, where each of those passes this one.
  pub retain-retain :
      (q : A → Bool) (xs : List A)
      → ((x : A) → q x ≡ true → p x ≡ true)
      → retain q (retain p xs) ≡ retain q xs
  unfolding retain
  retain-retain q [] h = refl
  retain-retain q (x ∷ xs) h = ground (arith, retain-retain q xs h, h x)

  pub find-retain :
      (q : A → Bool) (xs : List A)
      → ((x : A) → q x ≡ true → p x ≡ true)
      → find q (retain p xs) ≡ find q xs
  unfolding retain find
  find-retain q [] h = refl
  find-retain q (x ∷ xs) h = ground (arith, find-retain q xs h, h x)

  pub find-append_none : (xs ys : List A) → find p ys ≡ none → find p (xs ++ ys) ≡ find p xs
  unfolding find
  find-append_none [] ys h = h
  find-append_none (x ∷ xs) ys h = rw (find-append_none xs ys h)

  pub any-find : (xs : List A) → any p xs ≡ (elim (find p xs) [ none ↦ false | some x ↦ true ])
  unfolding any find
  any-find [] = refl
  any-find (x ∷ xs) = ground (arith, any-find xs)
