-- ===== src/Handler/Ints/Laws.antt =====
-- The comparisons of numbers in files.
use sysbox_fs.Prelude.{◌≡◌, inl, inr, refl, true, false, some, Option-cases, arith}
use sysbox_fs.Prelude.Int.{ℤ}
use sysbox_fs.Prelude.Bytes.{Bytes}
use sysbox_fs.Handler.Ints.{parse_int, int_ltb, write_max_int_to_fs, check_int_range}

pub write_max-defined :
    (curr new : Bytes) (a b : ℤ)
    → parse_int curr ≡ some a
    → parse_int new ≡ some b
    → write_max_int_to_fs curr new ≡ some (int_ltb a b)
unfolding write_max_int_to_fs
write_max-defined curr new a b ha hb = rw (ha, hb) refl

-- What passes the check is a number within the range.
pub check_int_range_sound :
    (content : Bytes) (min max : ℤ)
    → check_int_range content min max ≡ true
    → (val : ℤ) × (parse_int content ≡ some val)
      × (int_ltb val min ≡ false)
      × (int_ltb max val ≡ false)
unfolding check_int_range
check_int_range_sound content min max h = elim (Option-cases (parse_int content)) [
  | inl e ↦ absurd (ground arith)
  | inr (val, e) ↦ (val, e, ground arith, ground arith)
]
