-- ===== src/Process/ProcSelf.antt =====
-- Paths through /proc/self (replaceProcSelfWithProcPid, ResolveProcSelf of process/process.go). The
-- process' ID is given as it is printed.
pub mod Laws
use Prim.Native.Char.{code}
use Prim.Native.String
use sysbox_fs.Prelude.{
  ℕ, zero, suc, String, Bool, true, false, ◌&&◌, ◌||◌, not, Option, none, some, leb, nat_beq,
  if◌then◌else◌,
}
use sysbox_fs.Text.{concat, has_prefix, drop_prefix, is_abs, dir, join, clean}
use sysbox_fs.Process.Path.{Files, symlink_max}

abbrev pub self_prefix : String
self_prefix = "/proc/self/"

abbrev pub thread_self_prefix : String
thread_self_prefix = "/proc/thread-self/"

abbrev pub task_prefix : String
task_prefix = "/proc/self/task/"

-- What follows `[0-9]+/` at the start of a text; `seen` tells that a digit came before.
unfoldable pub after_id : Bool → String → Option String
after_id seen String.[] = none
after_id seen (String.◌∷◌ c s) =
    if leb b'0' (code c) && leb (code c) b'9'
    then after_id true s
    else if seen && nat_beq (code c) b'/'
    then some s
    else none

unfoldable pub in_task : String → String → String
in_task tid rest = concat task_prefix (concat tid (concat "/" rest))

unfoldable pub in_proc : String → String → String
in_proc pid rest = concat "/proc/" (concat pid (concat "/" rest))

-- The three replacements, in their order.
unfoldable pub replace_task : String → String → String
unfolding in_task after_id
replace_task tid path =
    if has_prefix path task_prefix
    then elim (after_id false (drop_prefix path task_prefix)) [
      | none ↦ path
      | some rest ↦ in_task tid rest
    ]
    else path

unfoldable pub replace_thread_self : String → String → String
unfolding in_task
replace_thread_self tid path =
    if has_prefix path thread_self_prefix
    then in_task tid (drop_prefix path thread_self_prefix)
    else path

unfoldable pub replace_self : String → String → String
unfolding in_proc
replace_self pid path =
    if has_prefix path self_prefix then in_proc pid (drop_prefix path self_prefix) else path

unfoldable pub replace_proc_self_with_proc_pid : String → String → String → String
unfolding replace_self replace_thread_self replace_task
replace_proc_self_with_proc_pid path pid tid =
    replace_self pid (replace_thread_self tid (replace_task tid path))

unfoldable pub is_proc_self : String → Bool
is_proc_self path = has_prefix path self_prefix || has_prefix path thread_self_prefix

-- A round of the loop ends it with a path, fails, or goes on at the end of a link.
pub data Round : Type 0 where
  arrived : String → Round
  lost : Round
  onward : String → Round

unfoldable pub proc_round : Files → String → String → Round
unfolding replace_proc_self_with_proc_pid
proc_round f pid path =
    if not (is_proc_self path)
    then arrived path
    else let curr = replace_proc_self_with_proc_pid path pid pid in
      elim (f.lstat curr) [
        | none ↦ lost
        | some fi ↦ if not fi.is_symlink then arrived curr else elim (f.readlink curr) [
          | none ↦ lost
          | some link ↦ onward (if is_abs link then link else clean (join (dir curr) link))
        ]
      ]

-- The loop, with the links it may still follow; `none` is its error.
unfoldable pub chase : Files → String → ℕ → String → Option String
chase f pid zero path = elim (proc_round f pid path) [
  | arrived p ↦ some p
  | lost ↦ none
  | onward p ↦ none
]
chase f pid (suc n) path = elim (proc_round f pid path) [
  | arrived p ↦ some p
  | lost ↦ none
  | onward p ↦ chase f pid n p
]

unfoldable pub resolve_proc_self : Files → String → String → Option String
resolve_proc_self f pid path =
    if not (is_abs path)
    then some path
    else if not (is_proc_self path)
    then some path
    else chase f pid symlink_max path
