-- ===== src/Prelude/Lists.antt =====
-- Lists measured by native numbers, searches by a Boolean test, and the result of a fallible step.
use Prim.Native.Nat.{ℕ, zero, suc, ◌+◌, ◌≤◌, ◌<◌, ◌-◌, min}
use mathlib.Core.Path.{◌≡◌, refl, ap}
use mathlib.Core.Logic.{◌⊎◌, ◌≢◌, inl, inr}
use mathlib.Core.Bool.{Bool, true, false, ◌||◌}
use mathlib.Core.Option.{Option, none, some}
use mathlib.Core.List.{List, [], ◌∷◌, ◌++◌}
use native.Mathlib.Omega.{arith}
use sysbox_fs.Prelude.Tests.{if◌then◌else◌}

module _ {ℓ} {A : Type ℓ} where
  abbrev pub length : List A → ℕ
  length [] = 0
  length (x ∷ xs) = suc (length xs)

  abbrev pub take : ℕ → List A → List A
  take zero xs = []
  take (suc n) [] = []
  take (suc n) (x ∷ xs) = x ∷ take n xs

  abbrev pub drop : ℕ → List A → List A
  drop zero xs = xs
  drop (suc n) [] = []
  drop (suc n) (x ∷ xs) = drop n xs

  abbrev pub get_elem? : List A → ℕ → Option A
  get_elem? [] i = none
  get_elem? (x ∷ xs) zero = some x
  get_elem? (x ∷ xs) (suc i) = get_elem? xs i

  -- The elements that a loop with `continue` keeps.
  abbrev pub keep : (A → Bool) → List A → List A
  keep p [] = []
  keep p (x ∷ xs) = if p x then x ∷ keep p xs else keep p xs

  abbrev pub any : (A → Bool) → List A → Bool
  any p [] = false
  any p (x ∷ xs) = p x || any p xs

  abbrev pub find : (A → Bool) → List A → Option A
  find p [] = none
  find p (x ∷ xs) = if p x then some x else find p xs

  pub length-append : (xs ys : List A) → length (xs ++ ys) ≡ length xs + length ys
  length-append [] ys = omega arith
  length-append (x ∷ xs) ys = omega (arith, length-append xs ys)

  pub length-take : (n : ℕ) (xs : List A) → length (take n xs) ≡ min n (length xs)
  length-take zero xs = omega arith
  length-take (suc n) [] = omega arith
  length-take (suc n) (x ∷ xs) = omega (arith, length-take n xs)

  pub length-drop : (n : ℕ) (xs : List A) → length (drop n xs) ≡ length xs - n
  length-drop zero xs = omega arith
  length-drop (suc n) [] = omega arith
  length-drop (suc n) (x ∷ xs) = omega (arith, length-drop n xs)

  pub take-all : (n : ℕ) (xs : List A) → length xs ≤ n → take n xs ≡ xs
  take-all zero [] h = refl
  take-all zero (x ∷ xs) h = absurd (omega arith)
  take-all (suc n) [] h = refl
  take-all (suc n) (x ∷ xs) h = ap (◌∷◌ x) (take-all n xs (omega arith))

module _ {ℓ} {A : Type ℓ} where
  -- The last element that passes, for a map that later entries overwrite.
  abbrev pub last_match : (A → Bool) → List A → Option A
  last_match p [] = none
  last_match p (x ∷ xs) = elim (last_match p xs) [
    | some y ↦ some y
    | none ↦ if p x then some x else none
  ]

  pub last_match-snoc :
      (p : A → Bool) (xs : List A) (x : A)
      → last_match p (xs ++ x ∷ []) ≡ (if p x then some x else last_match p xs)
  last_match-snoc p [] x = refl
  last_match-snoc p (y ∷ ys) x = ground (arith, last_match-snoc p ys x)

  pub keep-snoc :
      (p : A → Bool) (xs : List A) (x : A)
      → keep p (xs ++ x ∷ []) ≡ (if p x then keep p xs ++ x ∷ [] else keep p xs)
  keep-snoc p [] x = refl
  keep-snoc p (y ∷ ys) x = ground (arith, keep-snoc p ys x)

  pub get_elem?-snoc_self : (xs : List A) (x : A) → get_elem? (xs ++ x ∷ []) (length xs) ≡ some x
  get_elem?-snoc_self [] x = refl
  get_elem?-snoc_self (y ∷ ys) x = get_elem?-snoc_self ys x

  pub get_elem?-snoc_lt :
      (xs : List A) (x : A) (r : ℕ) → r < length xs → get_elem? (xs ++ x ∷ []) r ≡ get_elem? xs r
  get_elem?-snoc_lt [] x r h = absurd (omega arith)
  get_elem?-snoc_lt (y ∷ ys) x zero h = refl
  get_elem?-snoc_lt (y ∷ ys) x (suc r) h = get_elem?-snoc_lt ys x r (omega arith)

module _ {ℓ} {A : Type ℓ} where
  pub find-any :
      (p q : A → Bool) (xs : List A)
      → elim (find p xs) as (λ o. Bool) [ none ↦ false | some x ↦ q x ] ≡ true
      → any p xs ≡ true
  find-any p q [] h = h
  find-any p q (x ∷ xs) h = ground (arith, find-any p q xs)

module _ {ℓ} {A : Type ℓ} where
  pub last_match_sound :
      (p : A → Bool) (xs : List A) {a : A} → last_match p xs ≡ some a → p a ≡ true
  last_match_sound p [] h = ground arith
  last_match_sound p (x ∷ xs) {a} h = ground (arith, last_match_sound p xs {a = a})

  pub get_elem?-lt : (xs : List A) (r : ℕ) → r < length xs → get_elem? xs r ≢ none
  get_elem?-lt [] r h = absurd (omega arith)
  get_elem?-lt (x ∷ xs) zero h = λ e. ground arith
  get_elem?-lt (x ∷ xs) (suc r) h = get_elem?-lt xs r (omega arith)

-- Go's pair of a value and an error, where the value is read only if the error is nil.
pub data Result {ℓ κ} (E : Type κ) (A : Type ℓ) : Type (ℓ ⊔ κ) where
  ok : A → Result E A
  err : E → Result E A

pub Result-cases {ℓ κ} :
    {E : Type κ} {A : Type ℓ} (r : Result E A) → ((a : A) × (r ≡ ok a)) ⊎ ((e : E) × (r ≡ err e))
Result-cases (ok a) = inl (a, refl)
Result-cases (err e) = inr (e, refl)
