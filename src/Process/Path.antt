-- ===== src/Process/Path.antt =====
-- The resolution of a path (pathAccess, isSymlink of process/process.go). The file system, as
-- lstat, stat and readlink present it, is a parameter.
pub mod Links
pub mod Laws
pub mod Way
use sysbox_fs.Prelude.{
  ℕ, zero, suc, ◌+◌, String, Bool, true, false, ◌&&◌, ◌||◌, not, Option, none, some, List, [], ◌∷◌,
  ◌==◌, ltb, string_eq, Result, ok, err, if◌then◌else◌,
}
use sysbox_fs.Text.{concat, has_prefix, trim_prefix, split_on, is_abs, dir, join, byte_length}
use sysbox_fs.Process.Perm.{FileInfo, Creds, check_perm, x_ok}

-- `none` is a call that fails.
pub record Files : Type 0 where
  pub lstat : String → Option FileInfo
  pub stat : String → Option FileInfo
  pub readlink : String → Option String

-- What is fixed in one resolution: the process' credentials, /proc/<pid>/root and /proc/<pid>/cwd,
-- and the other arguments.
pub record Lookup : Type 0 where
  pub creds : Creds
  pub procroot : String
  pub proccwd : String
  pub mode : ℕ
  pub follow_symlink : Bool

-- The errnos.
abbrev pub enoent : ℕ
enoent = 2

abbrev pub eacces : ℕ
eacces = 13

abbrev pub enotdir : ℕ
enotdir = 20

abbrev pub enametoolong : ℕ
enametoolong = 36

abbrev pub eloop : ℕ
eloop = 40

abbrev pub symlink_max : ℕ
symlink_max = 40

abbrev pub path_max : ℕ
path_max = 4096

-- Where a link at `cur` leads.
unfoldable pub link_target : Lookup → String → String → String
link_target l cur link = if is_abs link then join l.procroot link else join (dir cur) link

-- The loop over links from `cur`, a link. `left` is symlinkMax - linkCnt, and `is_dir` what the last
-- lstat said; the result has both as the loop leaves them.
unfoldable pub follow : Files → Lookup → ℕ → String → Bool → Result ℕ (String × Bool × ℕ)
unfolding link_target
follow f l zero cur is_dir = err eloop
follow f l (suc n) cur is_dir = elim (f.readlink cur) [
  | none ↦ err enoent
  | some link ↦ elim (link_target l cur link == l.procroot) [
    | true ↦ ok (l.procroot, is_dir, suc n)
    | false ↦ elim (f.lstat (link_target l cur link)) [
      | none ↦ err enoent
      | some fi ↦ elim (fi.is_symlink) [
        | true ↦ follow f l n (link_target l cur link) fi.is_dir
        | false ↦ ok (link_target l cur link, fi.is_dir, suc n)
      ]
    ]
  ]
]

-- `..` stops at the process' root; `.` stays.
unfoldable pub step_into : Lookup → String → String → String
step_into l cur c =
    if c == ".."
    then (if has_prefix (dir cur) l.procroot then dir cur else l.procroot)
    else if c == "."
    then cur
    else join cur c

-- The links behind a component, if they are followed, and the check that what is not final is a
-- directory.
unfoldable pub resolve : Files → Lookup → Bool → String → ℕ → FileInfo → Result ℕ (String × ℕ)
unfolding follow
resolve f l final cur left fi =
    if (not final || l.follow_symlink) && fi.is_symlink && not (cur == l.procroot)
    then elim (follow f l left cur fi.is_dir) [
      | err e ↦ err e
      | ok (there, is_dir, rest) ↦ if not final && not is_dir then err enotdir else ok (there, rest)
    ]
    else ok (cur, left)

is_granted : Option Bool → Bool
is_granted none = false
is_granted (some granted) = granted

-- checkPerm at the end of a component: X_OK, or the given mode for the final one.
unfoldable pub may_pass : Files → Lookup → Bool → String → Bool
unfolding is_granted check_perm
may_pass f l final cur = is_granted (
    check_perm l.creds (if l.follow_symlink then f.stat cur else f.lstat cur)
      (if final then l.mode else x_ok))

guard_perm : Files → Lookup → Bool → Result ℕ (String × ℕ) → Result ℕ (String × ℕ)
guard_perm f l final (err e) = err e
guard_perm f l final (ok (cur, left)) =
    if may_pass f l final cur then ok (cur, left) else err eacces

-- One component that is not empty.
unfoldable pub visit : Files → Lookup → Bool → String → ℕ → String → Result ℕ (String × ℕ)
unfolding guard_perm may_pass resolve step_into
visit f l final cur left c = elim (f.lstat (step_into l cur c)) [
  | none ↦ err enoent
  | some fi ↦
      if not final && not fi.is_symlink && not fi.is_dir
      then err enotdir
      else guard_perm f l final (resolve f l final (step_into l cur c) left fi)
]

-- The resolved path: without the root or the working directory in front.
unfoldable pub strip : Lookup → String → String
strip l cur =
    if has_prefix cur l.procroot
    then trim_prefix cur l.procroot
    else trim_prefix cur (concat l.proccwd "/")

strip_result : Lookup → Result ℕ (String × ℕ) → Result ℕ String
strip_result l (err e) = err e
strip_result l (ok (cur, left)) = ok (strip l cur)

-- The loop over the components: an empty one is skipped, also as the final one.
unfoldable pub walk : Files → Lookup → List String → String → ℕ → Result ℕ String
unfolding visit strip strip_result
walk f l [] cur left = ok ""
walk f l (c ∷ []) cur left = if c == "" then ok "" else strip_result l (visit f l true cur left c)
walk f l (c ∷ d ∷ cs) cur left = elim (c == "") [
  | true ↦ walk f l (d ∷ cs) cur left
  | false ↦ elim (visit f l false cur left c) [
    | err e ↦ err e
    | ok (there, rest) ↦ walk f l (d ∷ cs) there rest
  ]
]

unfoldable pub path_access : Files → Lookup → String → Result ℕ String
unfolding walk
path_access f l path =
    if path == ""
    then err enoent
    else if ltb path_max (byte_length path + 1)
    then err enametoolong
    else walk f l (split_on b'/' path) (if is_abs path then l.procroot else l.proccwd) symlink_max
