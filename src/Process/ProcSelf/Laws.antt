-- ===== src/Process/ProcSelf/Laws.antt =====
-- Where the links under /proc/self lead.
use Prim.Native.Char.{Char, code}
use Prim.Native.String.{String}
use text.Mathlib.TextLemmas.{nil-append, cons-append}
use sysbox_fs.Prelude.{
  ℕ, zero, suc, ◌≡◌, ◌⊎◌, inl, inr, refl, true, false, none, some, arith, Bool-cases, Option-cases,
  nat_beq,
}
use sysbox_fs.Text.{concat, has_prefix, drop_prefix, is_abs}
use sysbox_fs.Process.Path.{Files, symlink_max}
use sysbox_fs.Process.ProcSelf.{
  Round, arrived, lost, onward, proc_round, chase, resolve_proc_self, is_proc_self, after_id,
  in_proc, in_task, replace_task, replace_thread_self, replace_self,
  replace_proc_self_with_proc_pid, self_prefix, thread_self_prefix, task_prefix,
}

Round-cases :
    (x : Round) → ((p : String) × (x ≡ arrived p)) ⊎ ((x ≡ lost) ⊎ ((p : String) × (x ≡ onward p)))
Round-cases (arrived p) = inl (p, refl)
Round-cases lost = inr (inl refl)
Round-cases (onward p) = inr (inr (p, refl))

-- A path that leads to itself is not followed for ever.
pub chase-cycle :
    (f : Files) (pid path : String) (left : ℕ)
    → proc_round f pid path ≡ onward path
    → chase f pid left path ≡ none
unfolding chase
chase-cycle f pid path zero h = ground arith
chase-cycle f pid path (suc n) h = ground (arith, chase-cycle f pid path n)

has_prefix-concat : (p a b : String) → has_prefix (concat p a) (concat p b) ≡ has_prefix a b
unfolding has_prefix
has_prefix-concat String.[] a b = rw (nil-append a, nil-append b) refl
has_prefix-concat (String.◌∷◌ c p) a b =
    rw (cons-append c p a, cons-append c p b) (ground (arith, has_prefix-concat p a b))

has_prefix-longer : (p a q : String) → has_prefix p q ≡ true → has_prefix (concat p a) q ≡ true
unfolding has_prefix
has_prefix-longer p a String.[] h = ground arith
has_prefix-longer String.[] a (String.◌∷◌ d q) h = absurd (ground arith)
has_prefix-longer (String.◌∷◌ c p) a (String.◌∷◌ d q) h =
    rw (cons-append c p a) (ground (arith, has_prefix-longer p a q))

in_proc-is_proc_self :
    (c : Char) (pid rest : String)
    → nat_beq (code c) b's' ≡ false
    → nat_beq (code c) b't' ≡ false
    → is_proc_self (in_proc (String.◌∷◌ c pid) rest) ≡ false
unfolding is_proc_self in_proc has_prefix
in_proc-is_proc_self c pid rest hs ht =
    let tail = concat (String.◌∷◌ c pid) (concat "/" rest) in
    ground (
      arith,
      has_prefix-concat "/proc/" tail "self/",
      has_prefix-concat "/proc/" tail "thread-self/",
      cons-append c pid (concat "/" rest),
    )

in_task-has_prefix : (tid rest : String) → has_prefix (in_task tid rest) self_prefix ≡ true
unfolding in_task has_prefix
in_task-has_prefix tid rest =
    has_prefix-longer task_prefix (concat tid (concat "/" rest)) self_prefix refl

replace_task-is_proc_self :
    (tid path : String) → is_proc_self path ≡ true → is_proc_self (replace_task tid path) ≡ true
unfolding replace_task is_proc_self
replace_task-is_proc_self tid path h = elim (Bool-cases (has_prefix path task_prefix)) [
  | inr b ↦ rw b h
  | inl b ↦ elim (Option-cases (after_id false (drop_prefix path task_prefix))) [
    | inl e ↦ rw (b, e) h
    | inr (rest, e) ↦ rw (b, e) (ground (arith, in_task-has_prefix tid rest))
  ]
]

replace_thread_self-has_prefix :
    (tid path : String)
    → is_proc_self path ≡ true
    → has_prefix (replace_thread_self tid path) self_prefix ≡ true
unfolding replace_thread_self is_proc_self
replace_thread_self-has_prefix tid path h = elim (Bool-cases (has_prefix path thread_self_prefix)) [
  | inl b ↦ rw b (in_task-has_prefix tid (drop_prefix path thread_self_prefix))
  | inr b ↦ rw b (ground arith)
]

-- A process' ID, as it is printed: it starts neither with the `s` of `self` nor with the `t` of
-- `thread-self`.
abbrev pub IsPrinted : String → Type 0
IsPrinted pid =
    (c : Char) × (s : String) × (pid ≡ String.◌∷◌ c s)
    × (nat_beq (code c) b's' ≡ false)
    × (nat_beq (code c) b't' ≡ false)

replaced-is_proc_self :
    (pid tid path : String)
    → IsPrinted pid
    → is_proc_self path ≡ true
    → is_proc_self (replace_proc_self_with_proc_pid path pid tid) ≡ false
unfolding replace_proc_self_with_proc_pid replace_self
replaced-is_proc_self pid tid path (c, s, e, hs, ht) h =
    rw
      (
        replace_thread_self-has_prefix tid (replace_task tid path)
            (replace_task-is_proc_self tid path h),
        e,
      )
      (in_proc-is_proc_self c s _ hs ht)

proc_round-arrived :
    (f : Files) (pid path r : String)
    → IsPrinted pid
    → proc_round f pid path ≡ arrived r
    → is_proc_self r ≡ false
unfolding proc_round
proc_round-arrived f pid path r printed h = elim (Bool-cases (is_proc_self path)) [
  | inr b ↦ ground arith
  | inl b ↦ ground (arith, replaced-is_proc_self pid pid path printed b)
]

chase-resolved :
    (f : Files) (pid path r : String) (left : ℕ)
    → IsPrinted pid
    → chase f pid left path ≡ some r
    → is_proc_self r ≡ false
unfolding chase
chase-resolved f pid path r zero printed h = elim (Round-cases (proc_round f pid path)) [
  | inl (p, e) ↦ ground (arith, proc_round-arrived f pid path p printed e)
  | inr (inl e) ↦ absurd (ground arith)
  | inr (inr (p, e)) ↦ absurd (ground arith)
]
chase-resolved f pid path r (suc n) printed h = elim (Round-cases (proc_round f pid path)) [
  | inl (p, e) ↦ ground (arith, proc_round-arrived f pid path p printed e)
  | inr (inl e) ↦ absurd (ground arith)
  | inr (inr (p, e)) ↦ chase-resolved f pid p r n printed (ground arith)
]

is_proc_self-is_abs : (path : String) → is_proc_self path ≡ true → is_abs path ≡ true
unfolding is_proc_self has_prefix is_abs
is_proc_self-is_abs String.[] h = absurd (ground arith)
is_proc_self-is_abs (String.◌∷◌ c s) h = ground arith

-- What ResolveProcSelf returns does not start with /proc/self/ or /proc/thread-self/, for a process
-- ID that is printed without an s or t in front.
pub resolve_proc_self-resolved :
    (f : Files) (pid path r : String)
    → IsPrinted pid
    → resolve_proc_self f pid path ≡ some r
    → is_proc_self r ≡ false
unfolding resolve_proc_self
resolve_proc_self-resolved f pid path r printed h = elim (Bool-cases (is_proc_self path)) [
  | inr b ↦ ground arith
  | inl b ↦
      chase-resolved f pid path r symlink_max printed (ground (arith, is_proc_self-is_abs path b))
]
