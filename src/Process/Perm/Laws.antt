-- ===== src/Process/Perm/Laws.antt =====
-- The permission check beside that of the kernel.
use sysbox_fs.Prelude.{
  ℕ, ◌+◌, ◌*◌, ◌<◌, Bool-cases, inl, inr, ◌≡◌, refl, Bool, true, false, ◌&&◌, ◌||◌, not, any, ◌==◌,
  nat_eq, if◌then◌else◌, arith,
}
use sysbox_fs.Process.Perm.{
  FileInfo, Creds, covers, owner_bits, group_bits, other_bits, some_x, dac_override,
  dac_read_search, access_granted,
}

-- Reading, writing, executing: what is asked for, or what a class of users may do.
pub record Rights : Type 0 where
  pub reads : Bool
  pub writes : Bool
  pub executes : Bool

abbrev pub bit : Bool → ℕ
bit b = if b then 1 else 0

abbrev pub rights_number : Rights → ℕ
rights_number r = 4 * bit r.reads + 2 * bit r.writes + bit r.executes

-- The permission bits of a file: of the owner, of the group, of the others.
pub record FileRights : Type 0 where
  pub of_owner : Rights
  pub of_group : Rights
  pub of_others : Rights

abbrev pub file_perm : FileRights → ℕ
file_perm p =
    64 * rights_number p.of_owner + 8 * rights_number p.of_group + rights_number p.of_others

-- Each right that is asked for is there.
abbrev pub within : Rights → Rights → Bool
within asked given =
    (not asked.reads || given.reads)
    && (not asked.writes || given.writes)
    && (not asked.executes || given.executes)

covers-within : (a b : Rights) → covers (rights_number a) (rights_number b) ≡ within a b
unfolding covers
covers-within a b = ground arith

rights-small : (r : Rights) → rights_number r < 8
rights-small r = ground arith

owner_bits-file : (p : FileRights) → owner_bits (file_perm p) ≡ rights_number p.of_owner
owner_bits-file p =
    omega (arith, rights-small p.of_owner, rights-small p.of_group, rights-small p.of_others)

group_bits-file : (p : FileRights) → group_bits (file_perm p) ≡ rights_number p.of_group
group_bits-file p =
    omega (arith, rights-small p.of_owner, rights-small p.of_group, rights-small p.of_others)

other_bits-file : (p : FileRights) → other_bits (file_perm p) ≡ rights_number p.of_others
other_bits-file p =
    omega (arith, rights-small p.of_owner, rights-small p.of_group, rights-small p.of_others)

-- Some class may execute the file.
abbrev pub some_executes : FileRights → Bool
some_executes p = p.of_owner.executes || p.of_group.executes || p.of_others.executes

some_x-file : (p : FileRights) → some_x (file_perm p) ≡ some_executes p
unfolding some_x
some_x-file p = ground arith

-- path_resolution(7): the rights of the owner for the owner, else those of the group for its members,
-- else those of the others.
abbrev pub is_owner : Creds → FileInfo → Bool
is_owner creds fi = fi.owner == creds.uid

abbrev pub is_member : Creds → FileInfo → Bool
is_member creds fi = fi.group == creds.gid || any (λ g. g == fi.group) creds.sgid

abbrev pub class_rights : Creds → FileInfo → FileRights → Rights
class_rights creds fi p =
    if is_owner creds fi then p.of_owner else if is_member creds fi then p.of_group else p.of_others

-- capabilities(7): CAP_DAC_OVERRIDE bypasses all checks but that for executing a file which no class
-- may execute; CAP_DAC_READ_SEARCH those for reading a file, and for reading and searching a directory.
abbrev pub overrides : FileInfo → FileRights → Rights → Bool
overrides fi p asked = fi.is_dir || not asked.executes || some_executes p

abbrev pub read_searches : FileInfo → Rights → Bool
read_searches fi asked = not asked.writes && (fi.is_dir || (asked.reads && not asked.executes))

abbrev pub kernel_grants : Creds → FileInfo → FileRights → Rights → Bool
kernel_grants creds fi p asked =
    within asked (class_rights creds fi p)
    || creds.cap_dac_override && overrides fi p asked
    || creds.cap_dac_read_search && read_searches fi asked

-- A class behind that of the process has the rights.
abbrev pub later_class_grants : Creds → FileInfo → FileRights → Rights → Bool
later_class_grants creds fi p asked =
    is_owner creds fi && is_member creds fi && within asked p.of_group
    || (is_owner creds fi || is_member creds fi) && within asked p.of_others

none_asked : (asked given : Rights) → (rights_number asked == 0) ≡ true → within asked given ≡ true
none_asked asked given h = ground arith

dac_override-rights :
    (fi : FileInfo) (p : FileRights) (asked : Rights)
    → fi.perm ≡ file_perm p
    → dac_override fi (rights_number asked) ≡ overrides fi p asked
unfolding dac_override
dac_override-rights fi p asked e =
    rw
      (
        e,
        some_x-file p,
        covers-within (record { reads = false; writes = false; executes = true }) asked,
      )
      refl

dac_read_search-rights :
    (fi : FileInfo) (asked : Rights)
    → (rights_number asked == 0) ≡ false
    → dac_read_search fi (rights_number asked) ≡ read_searches fi asked
unfolding dac_read_search
dac_read_search-rights fi asked some_asked =
    ground (arith, covers-within (record { reads = false; writes = true; executes = false }) asked)

within-class :
    (creds : Creds) (fi : FileInfo) (p : FileRights) (asked : Rights)
    → within asked (class_rights creds fi p) ≡ (
        if is_owner creds fi
        then within asked p.of_owner
        else if is_member creds fi
        then within asked p.of_group
        else within asked p.of_others)
within-class creds fi p asked = elim (Bool-cases (is_owner creds fi)) [
  | inl o ↦ rw o refl
  | inr o ↦ elim (Bool-cases (is_member creds fi)) [
    | inl m ↦ rw (o, m) refl
    | inr m ↦ rw (o, m) refl
  ]
]

-- The code's order of tests against the kernel's.
tests-order :
    (o m wo wg wt ov rs : Bool)
    → (if o && wo
        then true
        else if m && wg
        then true
        else if wt
        then true
        else if ov
        then true
        else rs)
      ≡ ((((if o then wo else if m then wg else wt) || ov) || rs)
          || ((o && m) && wg || (o || m) && wt))
tests-order o m wo wg wt ov rs = ground arith

-- For a file whose permission number has the rights of its owner, its group and the others as bits,
-- and a mode that is the number of some rights asked for, the permission check grants exactly what
-- path_resolution(7) and capabilities(7) grant, or what the rights of a class behind that of the
-- process grant: the group's or the others' to the owner, the others' to a member of the group.
pub access_granted-kernel :
    (creds : Creds) (fi : FileInfo) (p : FileRights) (asked : Rights)
    → fi.perm ≡ file_perm p
    → access_granted creds fi (rights_number asked)
      ≡ (kernel_grants creds fi p asked || later_class_grants creds fi p asked)
unfolding access_granted
access_granted-kernel creds fi p asked e = elim (Bool-cases (rights_number asked == 0)) [
  | inl nothing ↦ ground (arith, none_asked asked (class_rights creds fi p))
  | inr some_asked ↦
      let own : covers (rights_number asked) (owner_bits fi.perm) ≡ within asked p.of_owner =
        rw (e, owner_bits-file p) (covers-within asked p.of_owner) in
      let grp : covers (rights_number asked) (group_bits fi.perm) ≡ within asked p.of_group =
        rw (e, group_bits-file p) (covers-within asked p.of_group) in
      let oth : covers (rights_number asked) (other_bits fi.perm) ≡ within asked p.of_others =
        rw (e, other_bits-file p) (covers-within asked p.of_others) in
      rw
        (
          some_asked,
          own,
          grp,
          oth,
          dac_override-rights fi p asked e,
          dac_read_search-rights fi asked some_asked,
          within-class creds fi p asked,
        )
        (tests-order (is_owner creds fi) (is_member creds fi) (within asked p.of_owner)
          (within asked p.of_group) (within asked p.of_others)
          (creds.cap_dac_override && overrides fi p asked)
          (creds.cap_dac_read_search && read_searches fi asked))
]
