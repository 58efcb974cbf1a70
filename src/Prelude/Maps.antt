-- ===== src/Prelude/Maps.antt =====
-- `HashMap` of the standard library with numbers for keys (`u32`, `u64`, `Uuid`): a list of entries,
-- which are looked up by the first with the key. What iterates over a map does so in list order.
use omnisec.Prelude.{
  ℕ, ◌≡◌, ◌⊎◌, refl, Bool, true, false, not, inl, inr, ◌||◌, any, map, Bool-cases, ◌&&◌, ◌==◌,
  Option, none, some, List, [], ◌∷◌, arith, if◌then◌else◌, subst, ==_iff,
}

-- `HashSet` of numbers: a list without repetitions
abbrev pub has_number : List ℕ → ℕ → Bool
has_number ns n = any (λ m. m == n) ns

abbrev pub add_number : ℕ → List ℕ → List ℕ
add_number n ns = if has_number ns n then ns else n ∷ ns

abbrev pub NatMap {ℓ} : Type ℓ → Type ℓ
NatMap V = List (ℕ × V)

abbrev pub mapped {ℓ κ} : {A : Type ℓ} {B : Type κ} → (A → B) → Option A → Option B
mapped f none = none
mapped f (some v) = some (f v)

module _ {ℓ} {V : Type ℓ} where
  unfoldable pub get : NatMap V → ℕ → Option V
  get [] k = none
  get (e ∷ es) k = if e.0 == k then some e.1 else get es k

  -- `insert` replaces the value of a key that is there.
  unfoldable pub put : NatMap V → ℕ → V → NatMap V
  put [] k v = (k, v) ∷ []
  put (e ∷ es) k v = if e.0 == k then (k, v) ∷ es else e ∷ put es k v

  -- `remove`
  unfoldable pub erase : NatMap V → ℕ → NatMap V
  erase [] k = []
  erase (e ∷ es) k = if e.0 == k then erase es k else e ∷ erase es k

  -- `if let Some(v) = get_mut(&k) { *v = f(v) }`
  unfoldable pub alter : NatMap V → ℕ → (V → V) → NatMap V
  alter [] k f = []
  alter (e ∷ es) k f = if e.0 == k then (e.0, f e.1) ∷ es else e ∷ alter es k f

  abbrev pub has_key : NatMap V → ℕ → Bool
  has_key m k = elim (get m k) [ none ↦ false | some v ↦ true ]

  -- `entry(k).or_insert(v)`
  unfoldable pub put_new : NatMap V → ℕ → V → NatMap V
  put_new m k v = elim (get m k) [ none ↦ put m k v | some w ↦ m ]

  pub get-put :
      (m : NatMap V) (k j : ℕ) (v : V) → get (put m k v) j ≡ (if k == j then some v else get m j)
  unfolding get put
  get-put [] k j v = refl
  get-put (e ∷ es) k j v = ground (arith, get-put es k j v)

  pub get-erase : (m : NatMap V) (k j : ℕ) → get (erase m k) j ≡ (if k == j then none else get m j)
  unfolding get erase
  get-erase [] k j = ground arith
  get-erase (e ∷ es) k j = ground (arith, get-erase es k j)

  pub get-alter :
      (m : NatMap V) (k j : ℕ) (f : V → V)
      → get (alter m k f) j ≡ (if k == j then mapped f (get m j) else get m j)
  unfolding get alter
  get-alter [] k j f = ground arith
  get-alter (e ∷ es) k j f = ground (arith, get-alter es k j f)

  pub get-put_new :
      (m : NatMap V) (k j : ℕ) (v : V)
      → get (put_new m k v) j ≡ (if k == j && not (has_key m k) then some v else get m j)
  unfolding put_new
  get-put_new m k j v = ground (arith, get-put m k j v)

  -- The keys, and whether one is among them.
  abbrev pub keys : NatMap V → List ℕ
  keys m = map (λ e. e.0) m

  pub get_absent : (m : NatMap V) (k : ℕ) → any (λ j. j == k) (keys m) ≡ false → get m k ≡ none
  unfolding get any
  get_absent [] k h = refl
  get_absent (e ∷ es) k h = ground (arith, get_absent es k)

  any-keys-put :
      (m : NatMap V) (k j : ℕ) (v : V)
      → any (λ i. i == j) (keys (put m k v)) ≡ (any (λ i. i == j) (keys m) || k == j)
  unfolding put any
  any-keys-put [] k j v = ground arith
  any-keys-put (e ∷ es) k j v = ground (arith, any-keys-put es k j v)

  any-keys-erase :
      (m : NatMap V) (k j : ℕ)
      → any (λ i. i == j) (keys m) ≡ false
      → any (λ i. i == j) (keys (erase m k)) ≡ false
  unfolding erase any
  any-keys-erase [] k j h = refl
  any-keys-erase (e ∷ es) k j h = ground (arith, any-keys-erase es k j)

pub found_or_not {ℓ} : {A : Type ℓ} → (o : Option A) → (o ≡ none) ⊎ ((x : A) × (o ≡ some x))
found_or_not none = inl refl
found_or_not (some x) = inr (x, refl)

-- No number stands twice in a list.
abbrev pub Distinct : List ℕ → Type 0
Distinct [] = Unit
Distinct (k ∷ ks) = (any (λ j. j == k) ks ≡ false) × Distinct ks

module _ {ℓ} {V : Type ℓ} where
  pub put-Distinct :
      (m : NatMap V) (k : ℕ) (v : V) → Distinct (keys m) → Distinct (keys (put m k v))
  unfolding put any
  put-Distinct [] k v h = (refl, tt)
  put-Distinct (e ∷ es) k v h = elim (Bool-cases (e.0 == k)) [
    | inl m ↦ rw m (subst (λ i. any (λ j. j == i) (keys es) ≡ false) ((==_iff e.0 k).0 m) h.0, h.1)
    | inr m ↦ rw m (ground (arith, any-keys-put es k e.0 v, h.0), put-Distinct es k v h.1)
  ]

  pub erase-Distinct : (m : NatMap V) (k : ℕ) → Distinct (keys m) → Distinct (keys (erase m k))
  unfolding erase
  erase-Distinct [] k h = tt
  erase-Distinct (e ∷ es) k h = elim (Bool-cases (e.0 == k)) [
    | inl m ↦ rw m (erase-Distinct es k h.1)
    | inr m ↦ rw m (any-keys-erase es k e.0 h.0, erase-Distinct es k h.1)
  ]

  pub keys-alter : (m : NatMap V) (k : ℕ) (f : V → V) → keys (alter m k f) ≡ keys m
  unfolding alter
  keys-alter [] k f = refl
  keys-alter (e ∷ es) k f = ground (arith, keys-alter es k f)
