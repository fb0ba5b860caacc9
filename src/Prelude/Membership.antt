-- ===== src/Prelude/Membership.antt =====
-- Members of a list, and what the tests on lists say of them.
use mathlib.Core.List.Memᴰ
use mathlib.Core.List.{Memᴰ, List, [], ◌∷◌}
use mathlib.Core.Path.{◌≡◌, refl, sym}
use mathlib.Core.Logic.{inl, inr}
use mathlib.Core.Bool.{Bool, true}
use mathlib.Core.Option.{some}
use native.Mathlib.Omega.{arith}
use sysbox_fs.Prelude.Tests.{Bool-cases, Option-cases}
use sysbox_fs.Prelude.Lists.{any, last_match}

module _ {ℓ} {A : Type ℓ} (p : A → Bool) where
  pub any-Memᴰ : (l : List A) → any p l ≡ true → (x : A) × Memᴰ x l × (p x ≡ true)
  any-Memᴰ [] h = absurd (ground arith)
  any-Memᴰ (y ∷ l) h = elim (Bool-cases (p y)) [
    | inl hit ↦ (y, Memᴰ.head refl, hit)
    | inr miss ↦
        let (x, there, holds_x) = any-Memᴰ l (ground arith) in (x, Memᴰ.tail there, holds_x)
  ]

  pub any-of_Memᴰ : (l : List A) (x : A) → Memᴰ x l → p x ≡ true → any p l ≡ true
  any-of_Memᴰ [] x m h = absurd (Memᴰ.not-nil m)
  any-of_Memᴰ (y ∷ l) x (Memᴰ.head e) h = rw (sym e, h) refl
  any-of_Memᴰ (y ∷ l) x (Memᴰ.tail m) h = ground (arith, any-of_Memᴰ l x m h)

  pub last_match-Memᴰ : (l : List A) (x : A) → last_match p l ≡ some x → Memᴰ x l
  last_match-Memᴰ [] x h = absurd (ground arith)
  last_match-Memᴰ (y ∷ l) x h = elim (Option-cases (last_match p l)) [
    | inl none_later ↦ Memᴰ.head (ground arith)
    | inr (z, later) ↦ Memᴰ.tail (last_match-Memᴰ l x (ground arith))
  ]
