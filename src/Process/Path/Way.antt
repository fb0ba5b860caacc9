-- ===== src/Process/Path/Way.antt =====
-- What a granted path has passed.
use sysbox_fs.Prelude.{
  ℕ, ◌≡◌, ◌⊎◌, inl, inr, subst, sym, String, Bool, true, false, ◌&&◌, ◌||◌, not, some, List, [],
  ◌∷◌, ◌==◌, string_eq, ok, arith, Bool-cases, Option-cases, Result-cases, if◌then◌else◌,
}
use sysbox_fs.Text.{split_on, is_abs}
use sysbox_fs.Process.Perm.{FileInfo}
use sysbox_fs.Process.Path.{
  Files, Lookup, step_into, resolve, follow, visit, may_pass, strip, walk, path_access, symlink_max,
}
use sysbox_fs.Process.Path.Links.{Chain, follow-Chain, EndsAt}

-- From one path to another by its links, as far as they go, or by none.
pub data Leads (f : Files) (l : Lookup) : String → String → Type 0 where
  stays : (cur : String) → Leads f l cur cur
  by_links :
      {cur there : String} (k : ℕ) (is_dir : Bool)
      → Chain f l k cur there
      → EndsAt f l there is_dir
      → Leads f l cur there

-- What is not final is the process' root or a directory.
abbrev pub Passable : Files → Lookup → Bool → String → Type 0
Passable f l final there =
    (final ≡ true)
    ⊎ ((there ≡ l.procroot) ⊎ ((fi : FileInfo) × (f.lstat there ≡ some fi) × (fi.is_dir ≡ true)))

-- A component that leads from one path to another: its links lead there, and the process may pass
-- what stands there.
abbrev pub Steps : Files → Lookup → Bool → String → String → String → Type 0
Steps f l final c cur there =
    Leads f l (step_into l cur c) there
    × (may_pass f l final there ≡ true)
    × Passable f l final there

-- The components lead from one path to another.
pub data Way (f : Files) (l : Lookup) : List String → String → String → Type 0 where
  at_last : (c cur there : String) → Steps f l true c cur there → Way f l (c ∷ []) cur there
  skips :
      {d : String} {cs : List String} {cur there : String}
      → Way f l (d ∷ cs) cur there
      → Way f l ("" ∷ d ∷ cs) cur there
  goes :
      {d : String} {cs : List String} {there : String} (c cur mid : String)
      → Steps f l false c cur mid
      → Way f l (d ∷ cs) mid there
      → Way f l (c ∷ d ∷ cs) cur there

unfollowed :
    (f : Files) (l : Lookup) (final : Bool) (cur : String) (fi : FileInfo)
    → f.lstat cur ≡ some fi
    → (not final && not fi.is_symlink && not fi.is_dir) ≡ false
    → ((not final || l.follow_symlink) && fi.is_symlink && not (cur == l.procroot)) ≡ false
    → Passable f l final cur
unfollowed f l final cur fi here dir off = elim (Bool-cases final) [
  | inl e ↦ inl e
  | inr e ↦ elim (Bool-cases (cur == l.procroot)) [
    | inl r ↦ inr (inl ((string_eq.equal_iff cur l.procroot).0 r))
    | inr r ↦ inr (inr (fi, here, ground arith))
  ]
]

followed :
    (f : Files) (l : Lookup) (final : Bool) (there : String) (is_dir : Bool)
    → EndsAt f l there is_dir
    → (not final && not is_dir) ≡ false
    → Passable f l final there
followed f l final there is_dir (inl root) dir = inr (inl root)
followed f l final there is_dir (inr (fi, here, plain, same)) dir = elim (Bool-cases final) [
  | inl e ↦ inl e
  | inr e ↦ inr (inr (fi, here, ground arith))
]

resolve-Leads :
    (f : Files) (l : Lookup) (final : Bool) (cur there : String) (left rest : ℕ) (fi : FileInfo)
    → f.lstat cur ≡ some fi
    → (not final && not fi.is_symlink && not fi.is_dir) ≡ false
    → resolve f l final cur left fi ≡ ok (there, rest)
    → Leads f l cur there × Passable f l final there
unfolding resolve
resolve-Leads f l final cur there left rest fi here dir h =
    elim (Bool-cases
      ((not final || l.follow_symlink) && fi.is_symlink && not (cur == l.procroot))) [
        | inr b ↦
            let there_is : cur ≡ there = ground arith in
            subst (λ p. Leads f l cur p × Passable f l final p) there_is
              (stays cur, unfollowed f l final cur fi here dir b)
        | inl b ↦ elim (Result-cases (follow f l left cur fi.is_dir)) [
          | inr (e, failed) ↦ absurd (ground arith)
          | inl ((to, is_dir, kept), e) ↦
              let (k, chain, ends, taken, some_left) =
                follow-Chain f l left cur to fi.is_dir is_dir kept e in
              let reached : (to ≡ there) × ((not final && not is_dir) ≡ false) = ground arith in
              subst (λ p. Leads f l cur p × Passable f l final p) reached.0
                (by_links k is_dir chain ends, followed f l final to is_dir ends reached.1)
        ]
      ]

visit-Steps :
    (f : Files) (l : Lookup) (final : Bool) (cur there : String) (left rest : ℕ) (c : String)
    → visit f l final cur left c ≡ ok (there, rest)
    → Steps f l final c cur there
unfolding visit
visit-Steps f l final cur there left rest c h = elim (Option-cases (f.lstat (step_into l cur c))) [
  | inl e ↦ absurd (ground arith)
  | inr (fi, e) ↦ elim (Result-cases (resolve f l final (step_into l cur c) left fi)) [
    | inr (er, failed) ↦ absurd (ground arith)
    | inl ((to, kept), reached) ↦
        let granted : (may_pass f l final to ≡ true) × (to ≡ there) = ground arith in
        let (leads, passable) =
          resolve-Leads f l final (step_into l cur c) to left kept fi e (ground arith) reached in
        subst (Steps f l final c cur) granted.1 (leads, granted.0, passable)
  ]
]

skipped :
    (f : Files) (l : Lookup) (c d : String) (cs : List String) (cur there : String)
    → Way f l (d ∷ cs) cur there
    → (c == "") ≡ true
    → Way f l (c ∷ d ∷ cs) cur there
skipped f l c d cs cur there way b =
    subst (λ x. Way f l (x ∷ d ∷ cs) cur there) (sym ((string_eq.equal_iff c "").0 b)) (skips way)

walk-Way :
    (f : Files) (l : Lookup) (cs : List String) (cur r : String) (left : ℕ)
    → walk f l cs cur left ≡ ok r
    → (r ≡ "") ⊎ ((there : String) × Way f l cs cur there × (r ≡ strip l there))
unfolding walk
walk-Way f l [] cur r left h = inl (ground arith)
walk-Way f l (c ∷ []) cur r left h = elim (Bool-cases (c == "")) [
  | inl b ↦ inl (ground arith)
  | inr b ↦ elim (Result-cases (visit f l true cur left c)) [
    | inr (e, failed) ↦ absurd (ground arith)
    | inl ((there, rest), e) ↦
        inr
          (there, at_last c cur there (visit-Steps f l true cur there left rest c e), ground arith)
  ]
]
walk-Way f l (c ∷ d ∷ cs) cur r left h = elim (Bool-cases (c == "")) [
  | inl b ↦ elim (walk-Way f l (d ∷ cs) cur r left (ground arith)) [
    | inl empty ↦ inl empty
    | inr (there, way, out) ↦ inr (there, skipped f l c d cs cur there way b, out)
  ]
  | inr b ↦ elim (Result-cases (visit f l false cur left c)) [
    | inr (e, failed) ↦ absurd (ground arith)
    | inl ((mid, rest), e) ↦ elim (walk-Way f l (d ∷ cs) mid r rest (ground arith)) [
      | inl empty ↦ inl empty
      | inr (there, way, out) ↦
          inr (there, goes c cur mid (visit-Steps f l false cur mid left rest c e) way, out)
    ]
  ]
]

-- A path that pathAccess grants resolves to the empty path, or its components lead from the process'
-- root, or from its working directory for a relative path, to what is returned: each component leads
-- by its links, as far as a file that is no link or the process' root, or by none; the process has
-- the permission to pass what it leads to; and that is a directory or the process' root unless the
-- component is the final one.
pub path_access-Way :
    (f : Files) (l : Lookup) (path r : String)
    → path_access f l path ≡ ok r
    → (r ≡ "")
      ⊎ ((there : String) × Way f l
            (split_on b'/' path)
            (if is_abs path then l.procroot else l.proccwd)
            there
          × (r ≡ strip l there))
unfolding path_access
path_access-Way f l path r h =
    walk-Way f l (split_on b'/' path) (if is_abs path then l.procroot else l.proccwd) r symlink_max
      (ground arith)
