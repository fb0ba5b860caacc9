-- ===== src/Prelude/Bytes.antt =====
-- Go's byte slices as lists of bytes.
use Prim.Native.Nat.{ℕ}
use mathlib.Core.Path.{◌≡◌}
use mathlib.Core.Logic.{◌↔◌}
use mathlib.Core.Bool.{Bool, true, false, ◌&&◌}
use mathlib.Core.List.{List, [], ◌∷◌}
use native.Mathlib.Omega.{arith}
use sysbox_fs.Prelude.Tests.{Comparable, nat_beq}

abbrev pub Bytes : Type 0
Bytes = List ℕ

abbrev pub bytes_beq : Bytes → Bytes → Bool
bytes_beq [] [] = true
bytes_beq (a ∷ rest) (b ∷ bs) = nat_beq a b && bytes_beq rest bs
bytes_beq [] (b ∷ bs) = false
bytes_beq (a ∷ rest) [] = false

pub bytes_beq_iff : (a b : Bytes) → (bytes_beq a b ≡ true) ↔ (a ≡ b)
bytes_beq_iff [] [] = ground arith
bytes_beq_iff [] (b ∷ bs) = ground arith
bytes_beq_iff (a ∷ rest) [] = ground arith
bytes_beq_iff (a ∷ rest) (b ∷ bs) = ground (arith, bytes_beq_iff rest bs)

instance abbrev pub bytes_eq : Comparable Bytes
bytes_eq = record { equal = bytes_beq; equal_iff = bytes_beq_iff }
