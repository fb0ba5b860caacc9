-- ===== src/Process/Path/Links.antt =====
-- The links that a resolution follows.
use sysbox_fs.Prelude.{
  ℕ, zero, suc, ◌+◌, ◌≤◌, ◌≡◌, ◌⊎◌, inl, inr, subst, sym, ◌∙◌, String, Bool, true, false, some,
  ◌==◌, string_eq, ok, arith, Bool-cases, Option-cases,
}
use sysbox_fs.Process.Perm.{FileInfo}
use sysbox_fs.Process.Path.{Files, Lookup, follow, link_target}

-- `Chain k from to`: `k` links lead from one path to another, one behind the other; all that is
-- passed on the way is a link and not the process' root.
pub data Chain (f : Files) (l : Lookup) : ℕ → String → String → Type 0 where
  last_link :
      (cur link : String) → f.readlink cur ≡ some link → Chain f l 1 cur (link_target l cur link)
  next_link :
      {k : ℕ} (cur link there : String) (fi : FileInfo)
      → f.readlink cur ≡ some link
      → (link_target l cur link == l.procroot) ≡ false
      → f.lstat (link_target l cur link) ≡ some fi
      → fi.is_symlink ≡ true
      → Chain f l k (link_target l cur link) there
      → Chain f l (suc k) cur there

-- A path where the chase ends: the process' root, or a file that is no link.
abbrev pub EndsAt : Files → Lookup → String → Bool → Type 0
EndsAt f l there is_dir =
    (there ≡ l.procroot)
    ⊎ ((fi : FileInfo) × (f.lstat there ≡ some fi) × (fi.is_symlink ≡ false) × (fi.is_dir ≡ is_dir))

landed :
    (f : Files) (l : Lookup) (cur link there : String) (is_dir : Bool) (left rest : ℕ)
    → f.readlink cur ≡ some link
    → link_target l cur link ≡ there
    → EndsAt f l there is_dir
    → suc left ≡ rest
    → (k : ℕ) × Chain f l k cur there
      × EndsAt f l there is_dir
      × (k + rest ≡ suc (suc left))
      × (1 ≤ rest)
landed f l cur link there is_dir left rest e at ends taken =
    (1, subst (λ p. Chain f l 1 cur p) at (last_link cur link e), ends, omega arith, omega arith)

-- Links that are followed to an end are a chain to the process' root or to a file that is no link; a
-- chain of k links takes k - 1 from the number that is left, which stays positive.
pub follow-Chain :
    (f : Files) (l : Lookup) (left : ℕ) (cur there : String) (is_dir is_dir' : Bool) (rest : ℕ)
    → follow f l left cur is_dir ≡ ok (there, is_dir', rest)
    → (k : ℕ) × Chain f l k cur there
      × EndsAt f l there is_dir'
      × (k + rest ≡ suc left)
      × (1 ≤ rest)
unfolding follow
follow-Chain f l zero cur there is_dir is_dir' rest h = absurd (ground arith)
follow-Chain f l (suc n) cur there is_dir is_dir' rest h = elim (Option-cases (f.readlink cur)) [
  | inl e ↦ absurd (ground arith)
  | inr (link, e) ↦ elim (Bool-cases (link_target l cur link == l.procroot)) [
    | inl at_root ↦
        let root : (l.procroot ≡ there) × (suc n ≡ rest) = ground arith in
        landed f l cur link there is_dir' n rest e
          ((string_eq.equal_iff (link_target l cur link) l.procroot).0 at_root ∙ root.0)
          (inl (sym root.0)) root.1
    | inr on ↦ elim (Option-cases (f.lstat (link_target l cur link))) [
      | inl gone ↦ absurd (ground arith)
      | inr (fi, there_is) ↦ elim (Bool-cases (fi.is_symlink)) [
        | inr plain ↦
            let file : (link_target l cur link ≡ there) × (fi.is_dir ≡ is_dir') × (suc n ≡ rest) =
              ground arith in
            landed f l cur link there is_dir' n rest e file.0
              (inr (fi, subst (λ p. f.lstat p ≡ some fi) file.0 there_is, plain, file.1)) file.2
        | inl again ↦
            let (k, chain, ends, taken, some_left) =
              follow-Chain f l n (link_target l cur link) there fi.is_dir is_dir' rest
                (ground arith) in
            (
              suc k,
              next_link cur link there fi e on there_is again chain,
              ends,
              omega arith,
              some_left,
            )
      ]
    ]
  ]
]
