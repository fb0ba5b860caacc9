-- ===== src/Seccomp/Tracer/Laws.antt =====
-- What the handlers of mount and umount2 are given.

use text.Mathlib.TextLemmas.{cons-append}
use sysbox_fs.Prelude.{
  String, ◌≡◌, ap, refl, inl, inr, Bool, true, false, ◌==◌, nat_eq, string_eq, arith, if◌then◌else◌,
  Bool-cases, eq_iff, eq_iff,
}
use sysbox_fs.Text.{is_abs, join, clean, concat}
use sysbox_fs.Seccomp.Context.{SyscallCtx}
use sysbox_fs.Seccomp.Tracer.{absolute_target}

is_abs-concat : (a b : String) → is_abs a ≡ true → is_abs (concat a b) ≡ true
unfolding is_abs
is_abs-concat String.[] b h = absurd (ground arith)
is_abs-concat (String.◌∷◌ c a) b h = rw (cons-append c a b) h

is_abs-rooted : (x y : String) (b : Bool) → b ≡ true → is_abs (if b then concat "/" x else y) ≡ true
unfolding is_abs
is_abs-rooted x y true h = is_abs-concat "/" x refl
is_abs-rooted x y false h = absurd (ground arith)

is_abs-clean : (a : String) → is_abs a ≡ true → is_abs (clean a) ≡ true
unfolding clean
is_abs-clean a h = is_abs-rooted _ _ (is_abs a) h

is_abs-join : (a b : String) → is_abs a ≡ true → is_abs (join a b) ≡ true
unfolding join is_abs
is_abs-join a b h = elim (Bool-cases (a == "")) [
  | inl empty ↦
      (let no : is_abs a ≡ false = ap is_abs ((eq_iff a "").0 empty) in absurd (ground arith))
  | inr some_a ↦ elim (Bool-cases (b == "")) [
    | inl none_b ↦ rw (some_a, none_b) (is_abs-clean a h)
    | inr some_b ↦
        rw (some_a, some_b)
          (is_abs-clean (concat a (concat "/" b)) (is_abs-concat a (concat "/" b) h))
  ]
]

-- The target that a handler works on is an absolute path if the working directory is one, which is
-- what the kernel reports.
pub absolute_target-is_abs :
    (ctx : SyscallCtx) (target : String)
    → is_abs ctx.cwd ≡ true
    → is_abs (absolute_target ctx target) ≡ true
unfolding absolute_target
absolute_target-is_abs ctx target h = elim (Bool-cases (is_abs target)) [
  | inl abs ↦ rw abs abs
  | inr rel ↦ rw rel (is_abs-join ctx.cwd target h)
]
