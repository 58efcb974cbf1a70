-- ===== src/Prelude/Sort.antt =====
-- `sort_by` of the standard library, a stable sort, and `iter().find` after it.
use mathlib.Core.List.Perm
use mathlib.Core.List.{Perm}
use omnisec.Prelude.{
  suc, ◌≡◌, refl, ◌∙◌, ap, subst, inl, inr, Bool, true, false, Option, none, some, List, [], ◌∷◌,
  arith, if◌then◌else◌, Bool-cases, Option-cases, length, All, All-imp, find,
}

module _ {ℓ} {A : Type ℓ} (le : A → A → Bool) where
  unfoldable pub insert_sorted : A → List A → List A
  insert_sorted x [] = x ∷ []
  insert_sorted x (y ∷ ys) =
      let rest = insert_sorted x ys in if le x y then x ∷ y ∷ ys else y ∷ rest

  -- An element stays in front of the later ones that compare equal to it.
  unfoldable pub sort_by : List A → List A
  unfolding insert_sorted
  sort_by [] = []
  sort_by (x ∷ xs) = insert_sorted x (sort_by xs)

  length-insert_sorted : (x : A) (ys : List A) → length (insert_sorted x ys) ≡ suc (length ys)
  unfolding insert_sorted
  length-insert_sorted x [] = refl
  length-insert_sorted x (y ∷ ys) = ground (arith, length-insert_sorted x ys)

  pub length-sort_by : (xs : List A) → length (sort_by xs) ≡ length xs
  unfolding sort_by
  length-sort_by [] = refl
  length-sort_by (x ∷ xs) = length-insert_sorted x (sort_by xs) ∙ ap suc (length-sort_by xs)

  insert_sorted-perm : (x : A) (ys : List A) → Perm (insert_sorted x ys) (x ∷ ys)
  unfolding insert_sorted
  insert_sorted-perm x [] = Perm.refl (x ∷ [])
  insert_sorted-perm x (y ∷ ys) = elim (Bool-cases (le x y)) [
    | inl e ↦ rw e (Perm.refl (x ∷ y ∷ ys))
    | inr e ↦ rw e (Perm.trans (Perm.cons y (insert_sorted-perm x ys)) (Perm.swap x y ys))
  ]

  pub sort_by-perm : (xs : List A) → Perm (sort_by xs) xs
  unfolding sort_by
  sort_by-perm [] = Perm.refl []
  sort_by-perm (x ∷ xs) =
      Perm.trans (insert_sorted-perm x (sort_by xs)) (Perm.cons x (sort_by-perm xs))

  abbrev pub IsSorted : List A → Type 0
  IsSorted [] = Unit
  IsSorted (x ∷ xs) = All (λ y. le x y ≡ true) xs × IsSorted xs

  -- The first of the greatest elements that pass the test, by one pass with no sorting.
  unfoldable pub first_best : (A → Bool) → List A → Option A
  first_best p [] = none
  first_best p (x ∷ xs) =
      let best = first_best p xs in
      if p x
      then (elim best [ none ↦ some x | some y ↦ if le x y then some x else some y ])
      else best

  pub first_best-eq_none :
      (p : A → Bool) (xs : List A) → All (λ y. p y ≡ false) xs → first_best p xs ≡ none
  unfolding first_best
  first_best-eq_none p [] h = refl
  first_best-eq_none p (x ∷ xs) h = rw (h.0, first_best-eq_none p xs h.1)

  -- `z` passes the test, and no element of the list that passes stands above it.
  abbrev pub IsGreatest : (A → Bool) → A → List A → Type 0
  IsGreatest p z xs = (p z ≡ true) × All (λ y. p y ≡ true → le z y ≡ true) xs

pub record IsTotalOrder {ℓ} {A : Type ℓ} (le : A → A → Bool) : Type ℓ where
  pub total : (x y : A) → le x y ≡ false → le y x ≡ true
  pub transitive : (x y z : A) → le x y ≡ true → le y z ≡ true → le x z ≡ true

module _ {ℓ} {A : Type ℓ} (le : A → A → Bool) (order : IsTotalOrder le) where
  All-le_trans :
      (x y : A) (ys : List A)
      → le x y ≡ true
      → All (λ z. le y z ≡ true) ys
      → All (λ z. le x z ≡ true) ys
  All-le_trans x y [] h t = tt
  All-le_trans x y (z ∷ zs) h t = (order.transitive x y z h t.0, All-le_trans x y zs h t.1)

  All-insert_sorted :
      (y x : A) (ys : List A)
      → le y x ≡ true
      → All (λ z. le y z ≡ true) ys
      → All (λ z. le y z ≡ true) (insert_sorted le x ys)
  unfolding insert_sorted
  All-insert_sorted y x [] h t = (h, tt)
  All-insert_sorted y x (z ∷ zs) h t = elim (Bool-cases (le x z)) [
    | inl e ↦ rw e (h, t)
    | inr e ↦ rw e (t.0, All-insert_sorted y x zs h t.1)
  ]

  insert_sorted-IsSorted :
      (x : A) (ys : List A) → IsSorted le ys → IsSorted le (insert_sorted le x ys)
  unfolding insert_sorted
  insert_sorted-IsSorted x [] s = (tt, tt)
  insert_sorted-IsSorted x (y ∷ ys) s = elim (Bool-cases (le x y)) [
    | inl e ↦ rw e ((e, All-le_trans x y ys e s.0), s)
    | inr e ↦
        rw e (All-insert_sorted y x ys (order.total x y e) s.0, insert_sorted-IsSorted x ys s.1)
  ]

  pub sort_by-IsSorted : (xs : List A) → IsSorted le (sort_by le xs)
  unfolding sort_by
  sort_by-IsSorted [] = tt
  sort_by-IsSorted (x ∷ xs) = insert_sorted-IsSorted x (sort_by le xs) (sort_by-IsSorted xs)

  All-find :
      (p : A → Bool) (x z : A) (ys : List A)
      → All (λ y. le x y ≡ true) ys
      → find p ys ≡ some z
      → le x z ≡ true
  unfolding find
  All-find p x z [] t h = cc
  All-find p x z (y ∷ ys) t h = elim (Bool-cases (p y)) [
    | inl e ↦ ground arith
    | inr e ↦ All-find p x z ys t.1 (ground arith)
  ]

  find-insert_sorted :
      (p : A → Bool) (x : A) (ys : List A)
      → IsSorted le ys
      → find p (insert_sorted le x ys) ≡ (
          if p x
          then (elim (find p ys) [ none ↦ some x | some y ↦ if le x y then some x else some y ])
          else find p ys)
  unfolding find insert_sorted
  find-insert_sorted p x [] s = refl
  find-insert_sorted p x (y ∷ ys) s = elim (Option-cases (find p ys)) [
    | inl e ↦ ground (arith, find-insert_sorted p x ys)
    | inr (z, e) ↦
        ground (arith, find-insert_sorted p x ys, order.transitive x y z, All-find p y z ys s.0)
  ]

  -- To sort and take the first element that passes is to take the first of the greatest.
  pub find-sort_by : (p : A → Bool) (xs : List A) → find p (sort_by le xs) ≡ first_best le p xs
  unfolding sort_by first_best find
  find-sort_by p [] = refl
  find-sort_by p (x ∷ xs) =
      rw (find-insert_sorted p x (sort_by le xs) (sort_by-IsSorted xs), find-sort_by p xs) refl

  le_self : (x : A) → le x x ≡ true
  le_self x = elim (Bool-cases (le x x)) [ inl e ↦ e | inr e ↦ order.total x x e ]

  pub first_best-none :
      (p : A → Bool) (xs : List A) → first_best le p xs ≡ none → All (λ y. p y ≡ false) xs
  unfolding first_best
  first_best-none p [] h = tt
  first_best-none p (x ∷ xs) h = elim (Option-cases (first_best le p xs)) [
    | inl e ↦ (ground arith, first_best-none p xs e)
    | inr (y, e) ↦ absurd (ground arith)
  ]

  IsGreatest-here :
      (p : A → Bool) (x z : A) (xs : List A)
      → x ≡ z
      → p x ≡ true
      → All (λ y. p y ≡ true → le x y ≡ true) xs
      → IsGreatest le p z (x ∷ xs)
  IsGreatest-here p x z xs same holds most =
      subst (λ w. IsGreatest le p w (x ∷ xs)) same (holds, ((λ h. le_self x), most))

  pub first_best-IsGreatest :
      (p : A → Bool) (xs : List A) (z : A) → first_best le p xs ≡ some z → IsGreatest le p z xs
  unfolding first_best
  first_best-IsGreatest p [] z h = cc
  first_best-IsGreatest p (x ∷ xs) z h = elim (Bool-cases (p x)) [
    | inr e ↦
        let (holds, most) = first_best-IsGreatest p xs z (ground arith) in
        (holds, ((λ t. cc), most))
    | inl e ↦ elim (Option-cases (first_best le p xs)) [
      | inl lone ↦
          IsGreatest-here p x z xs (ground arith) e
            (All-imp (λ y no_match t. cc) xs (first_best-none p xs lone))
      | inr (y, found) ↦
          let (holds, most) = first_best-IsGreatest p xs y found in
          elim (Bool-cases (le x y)) [
            | inl above ↦
                IsGreatest-here p x z xs (ground arith) e
                  (All-imp (λ w up t. order.transitive x y w above (up t)) xs most)
            | inr below ↦
                let same : y ≡ z = ground arith in
                subst (λ w. IsGreatest le p w (x ∷ xs)) same
                  (holds, ((λ t. order.total x y below), most))
          ]
    ]
  ]
