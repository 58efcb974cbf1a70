-- ===== src/Prelude/Texts.antt =====
-- `str` and `HashSet<String>` of the standard library. A set is a list without repetitions.
use Prim.Native.Char.{code}
use Prim.Native.String.{◌++◌ as text_append, [] as nil, ◌∷◌ as ◌cons◌}
use text.Mathlib.Text.{◌==◌ as str_eq, find?}
use text.Mathlib.TextEquality.{eq_iff}
use omnisec.Prelude.{
  String, ◌≡◌, refl, inl, inr, Bool, true, false, not, ◌||◌, none, some, List, [], ◌∷◌, arith,
  if◌then◌else◌, Bool-cases, ◌==◌, any, retain,
}

-- `format!` with its pieces in a row
abbrev pub concat : List String → String
concat [] = ""
concat (s ∷ ss) = text_append s (concat ss)

-- `s.replace('.', "_")`; the code of a full stop is 46.
unfoldable pub replace_dots : String → String
replace_dots nil = ""
replace_dots (c cons s) =
    let rest = replace_dots s in if code c == 46 then text_append "_" rest else c cons rest

-- `s.contains(part)` of two texts
unfoldable pub has_part : String → String → Bool
has_part s part = elim (find? s part) [ none ↦ false | some i ↦ true ]

abbrev pub StringSet : Type 0
StringSet = List String

unfoldable pub contains : StringSet → String → Bool
unfolding any
contains set s = any (λ t. str_eq t s) set

unfoldable pub insert : String → StringSet → StringSet
unfolding contains
insert s set = if contains set s then set else s ∷ set

unfoldable pub remove : String → StringSet → StringSet
unfolding retain
remove s set = retain (λ t. not (str_eq t s)) set

-- `into_iter().collect()`
unfoldable pub collect : List String → StringSet
unfolding insert
collect [] = []
collect (s ∷ ss) = insert s (collect ss)

pub contains-insert :
    (set : StringSet) (s t : String) → contains (insert s set) t ≡ (str_eq s t || contains set t)
unfolding insert contains
contains-insert set s t = elim (Bool-cases (any (λ u. str_eq u s) set)) [
  | inl old ↦ elim (Bool-cases (str_eq s t)) [
    | inl e ↦ rw (old, e, ← (eq_iff s t).0 e) old
    | inr e ↦ rw (old, e)
  ]
  | inr new ↦ rw new
]

pub contains-remove :
    (set : StringSet) (s t : String)
    → contains (remove s set) t ≡ (if str_eq s t then false else contains set t)
unfolding remove contains
contains-remove [] s t = ground arith
contains-remove (u ∷ set) s t =
    ground (arith, eq_iff u s, eq_iff s t, eq_iff u t, contains-remove set s t)

pub contains-collect :
    (names : List String) (t : String) → contains (collect names) t ≡ any (λ s. str_eq s t) names
unfolding collect any
contains-collect [] t = unfold contains in refl
contains-collect (s ∷ ss) t = rw (contains-insert (collect ss) s t, contains-collect ss t)
