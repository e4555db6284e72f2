-- ===== src/Text/Laws.antt =====
-- What the tests on texts decide.
use ezsockets.Base.{Bool-cases, [], ap, arith, inl, inr, refl, true, ◌++◌, ◌↔◌, ◌∷◌, ◌≡◌}
use ezsockets.Text.{
  Bytes, bytes_eq, contains, eq_ignore_ascii_case, starts_with, to_ascii_lowercase,
}

pub bytes_eq_iff : (xs ys : Bytes) → (bytes_eq xs ys ≡ true) ↔ (xs ≡ ys)
unfolding bytes_eq
bytes_eq_iff [] [] = ground arith
bytes_eq_iff [] (y ∷ ys) = ground arith
bytes_eq_iff (x ∷ xs) [] = ground arith
bytes_eq_iff (x ∷ xs) (y ∷ ys) = ground (arith, bytes_eq_iff xs ys)

pub eq_ignore_ascii_case_iff :
    (xs ys : Bytes)
    → (eq_ignore_ascii_case xs ys ≡ true) ↔ (to_ascii_lowercase xs ≡ to_ascii_lowercase ys)
unfolding eq_ignore_ascii_case to_ascii_lowercase
eq_ignore_ascii_case_iff [] [] = ground arith
eq_ignore_ascii_case_iff [] (y ∷ ys) = ground arith
eq_ignore_ascii_case_iff (x ∷ xs) [] = ground arith
eq_ignore_ascii_case_iff (x ∷ xs) (y ∷ ys) = ground (arith, eq_ignore_ascii_case_iff xs ys)

starts_with_prefix :
    (xs ys : Bytes) → starts_with xs ys ≡ true → (after : Bytes) × (xs ≡ ys ++ after)
unfolding starts_with
starts_with_prefix xs [] h = (xs, refl)
starts_with_prefix [] (y ∷ ys) h = absurd (ground arith)
starts_with_prefix (x ∷ xs) (y ∷ ys) h =
    let (after, e) = starts_with_prefix xs ys (ground arith) in (after, ground arith)

starts_with-append : (ys after : Bytes) → starts_with (ys ++ after) ys ≡ true
unfolding starts_with
starts_with-append [] after = refl
starts_with-append (y ∷ ys) after = ground (arith, starts_with-append ys after)

contains_factor :
    (xs ys : Bytes)
    → contains xs ys ≡ true
    → (before : Bytes) × (after : Bytes) × (xs ≡ before ++ ys ++ after)
unfolding contains
contains_factor [] ys h = let (after, e) = starts_with_prefix [] ys h in ([], after, e)
contains_factor (x ∷ xs) ys h = elim (Bool-cases (starts_with (x ∷ xs) ys)) [
  | inl s ↦ let (after, e) = starts_with_prefix (x ∷ xs) ys s in ([], after, e)
  | inr s ↦
      let (before, after, e) = contains_factor xs ys (ground arith) in
      (x ∷ before, after, ap (λ zs. x ∷ zs) e)
]

contains-append : (before ys after : Bytes) → contains (before ++ ys ++ after) ys ≡ true
unfolding contains
contains-append [] [] [] = unfold starts_with in refl
contains-append [] [] (a ∷ after) = unfold starts_with in refl
contains-append [] (y ∷ ys) after = ground (arith, starts_with-append (y ∷ ys) after)
contains-append (b ∷ before) ys after = ground (arith, contains-append before ys after)

pub contains_iff :
    (xs ys : Bytes)
    → (contains xs ys ≡ true) ↔ ((before : Bytes) × (after : Bytes) × (xs ≡ before ++ ys ++ after))
contains_iff xs ys = (
  contains_factor xs ys,
  λ h. let (before, after, e) = h in rw e (contains-append before ys after),
)
