-- ===== src/Mount/Clone.antt =====
-- Inodes of mountpoints and the comparison of mounts across namespaces (mount/infoParser.go,
-- state/container.go). Two parsers take part: that of the container and that of the process. An
-- object is its parser's side and its reference. The nsenter agent that reads inodes is a parameter,
-- `none` where it fails. `mapMounts` is never filled (mount/helper.go), so no mountpoint is skipped.
pub mod Depth
use sysbox_fs.Prelude.{
  ℕ, zero, suc, String, Bool, true, false, ◌&&◌, not, Option, none, some, List, [], ◌∷◌, ◌==◌,
  nat_eq, string_eq, length, get_elem?, Result, ok, err, if◌then◌else◌,
}
use sysbox_fs.Prelude.Maps.{lookup}
use sysbox_fs.Prelude.Int.{int_eq}
use sysbox_fs.Mount.Flags.{string_to_flags, clear_flag, is_read_only_mount, ms_rdonly}
use sysbox_fs.Mount.Info.{MountInfo, MountInfoParser, get_parent_mount}

pub data InodeError : Type 0 where
  nsenter_failed wrong_count missing_entry index_out_of_range : InodeError

-- `extractInodes`: the answer of the nsenter agent.
abbrev pub Agent : Type 0
Agent = List String → Option (List ℕ)

abbrev pub set_nth : List MountInfo → ℕ → ℕ → List MountInfo
set_nth [] r i = []
set_nth (x ∷ xs) zero i = record x { mp_inode = i } ∷ xs
set_nth (x ∷ xs) (suc r) i = x ∷ set_nth xs r i

-- `info.MpInode = i`, of the object at `r`.
abbrev pub set_inode : MountInfoParser → ℕ → ℕ → MountInfoParser
set_inode mi r i = record mi { heap = set_nth mi.heap r i }

-- The last loop of extractAncestorInodes and of extractAllInodes.
pub store_inodes :
    MountInfoParser → List String → List ℕ → Result InodeError (Unit {0}) × MountInfoParser
unfolding lookup
store_inodes mi [] is = (ok tt, mi)
store_inodes mi (mp ∷ mps) [] = (err wrong_count, mi)
store_inodes mi (mp ∷ mps) (i ∷ is) = elim (lookup mp mi.mp_info) [
  | none ↦ (err missing_entry, mi)
  | some r ↦ store_inodes (set_inode mi r i) mps is
]

-- The mountpoints of a mount and of its ancestors, the mount's first; `fuel` bounds their number.
unfoldable pub ancestor_mountpoints : ℕ → MountInfoParser → Option MountInfo → List String
unfolding get_parent_mount
ancestor_mountpoints fuel mi none = []
ancestor_mountpoints zero mi (some info) = []
ancestor_mountpoints (suc fuel) mi (some info) =
    info.mount_point ∷ ancestor_mountpoints fuel mi (get_parent_mount mi info)

checked_store :
    MountInfoParser → List String → List ℕ → Result InodeError (Unit {0}) × MountInfoParser
unfolding store_inodes
checked_store mi mps is =
    if not (length mps == length is) then (err wrong_count, mi) else store_inodes mi mps is

-- extractAncestorInodes. A failure of the agent is not reported.
unfoldable pub extract_ancestor_inodes :
    ℕ → Agent → MountInfoParser → MountInfo → Result InodeError (Unit {0}) × MountInfoParser
unfolding ancestor_mountpoints checked_store
extract_ancestor_inodes fuel agent mi info =
    let mps = ancestor_mountpoints fuel mi (some info) in
    elim (agent mps) [ none ↦ (ok tt, mi) | some is ↦ checked_store mi mps is ]

-- extractAllInodes, over the mounts in the order `mps` that the range over idInfo takes.
unfoldable pub extract_all_inodes :
    Agent → MountInfoParser → List String → Result InodeError (Unit {0}) × MountInfoParser
unfolding checked_store
extract_all_inodes agent mi mps = elim (agent mps) [
  | none ↦ (err nsenter_failed, mi)
  | some is ↦ checked_store mi mps is
]

first_inode : MountInfoParser → ℕ → Option (List ℕ) → Result InodeError ℕ × MountInfoParser
first_inode mi r none = (err nsenter_failed, mi)
first_inode mi r (some []) = (err index_out_of_range, mi)
first_inode mi r (some (i ∷ is)) = (ok i, set_inode mi r i)

inode_at :
    Agent → MountInfoParser → String → ℕ → Option MountInfo → Result InodeError ℕ × MountInfoParser
unfolding first_inode
inode_at agent mi mp r none = (err missing_entry, mi)
inode_at agent mi mp r (some info) =
    if info.mp_inode == 0 then first_inode mi r (agent (mp ∷ [])) else (ok info.mp_inode, mi)

-- ExtractInode.
unfoldable pub extract_inode :
    Agent → MountInfoParser → String → Result InodeError ℕ × MountInfoParser
unfolding inode_at lookup
extract_inode agent mi mp = elim (lookup mp mi.mp_info) [
  | none ↦ (err missing_entry, mi)
  | some r ↦ inode_at agent mi mp r (get_elem? mi.heap r)
]

pub data Side : Type 0 where
  in_container in_process : Side

abbrev pub Loc : Type 0
Loc = Side × ℕ

pub record Parsers : Type 0 where
  pub container : MountInfoParser
  pub process : MountInfoParser

abbrev pub parser_at : Parsers → Side → MountInfoParser
parser_at ps in_container = ps.container
parser_at ps in_process = ps.process

abbrev pub with_parser : Parsers → Side → MountInfoParser → Parsers
with_parser ps in_container mi = record ps { container = mi }
with_parser ps in_process mi = record ps { process = mi }

abbrev pub read : Parsers → Loc → Option MountInfo
read ps (side, r) = get_elem? (parser_at ps side).heap r

parent_ref : Parsers → Side → Option MountInfo → Option Loc
unfolding lookup
parent_ref ps side none = none
parent_ref ps side (some info) = elim (lookup info.parent_id (parser_at ps side).id_info) [
  | none ↦ none
  | some r ↦ some (side, r)
]

-- `m.Mip.GetParentMount(m)`.
pub parent_of : Parsers → Loc → Option Loc
unfolding parent_ref
parent_of ps (side, r) = parent_ref ps side (read ps (side, r))

-- `if m.MpInode == 0 { m.Mip.ExtractAncestorInodes(m) }`.
fetch_info : ℕ → Agent → Parsers → Side → Option MountInfo → Result InodeError (Unit {0}) × Parsers
unfolding extract_ancestor_inodes
fetch_info fuel agent ps side none = (ok tt, ps)
fetch_info fuel agent ps side (some info) =
    if info.mp_inode == 0
    then (let (r, mi) = extract_ancestor_inodes fuel agent (parser_at ps side) info in
        (r, with_parser ps side mi))
    else (ok tt, ps)

pub fetch_inode : ℕ → Agent → Parsers → Loc → Result InodeError (Unit {0}) × Parsers
unfolding fetch_info
fetch_inode fuel agent ps (side, r) = fetch_info fuel agent ps side (read ps (side, r))

-- Root, source and the flags but for MS_RDONLY agree.
pub same_attributes : MountInfo → MountInfo → Bool
same_attributes a b =
    a.root == b.root
    && a.source == b.source
    && (clear_flag ms_rdonly (string_to_flags a.options)
        == clear_flag ms_rdonly (string_to_flags b.options))

both : Option MountInfo → Option MountInfo → (MountInfo → MountInfo → Bool) → Bool
both (some a) (some b) p = p a b
both none b p = false
both (some a) none p = false

same_inode : MountInfo → MountInfo → Bool
same_inode a b = a.mp_inode == b.mp_inode

-- ancestryLineMatch; each round goes to the parents. `fuel` bounds the rounds.
pub ancestry_line_match : ℕ → Agent → Parsers → Loc → Loc → Bool × Parsers
unfolding parent_of fetch_inode same_attributes same_inode both
ancestry_line_match zero agent ps m1 m2 = (false, ps)
ancestry_line_match (suc fuel) agent ps m1 m2 = elim (parent_of ps m1) [
  | none ↦ (true, ps)
  | some p1 ↦ elim (parent_of ps m2) [
    | none ↦ (true, ps)
    | some p2 ↦
        let (r1, ps1) = fetch_inode fuel agent ps p1 in
        let (r2, ps2) = fetch_inode fuel agent ps1 p2 in
        elim r1 [
          | err e ↦ (false, ps1)
          | ok _ ↦ elim r2 [
            | err e ↦ (false, ps2)
            | ok _ ↦
                if both (read ps2 p1) (read ps2 p2) (λ a b. same_inode a b && same_attributes a b)
                then ancestry_line_match fuel agent ps2 p1 p2
                else (false, ps2)
          ]
        ]
  ]
]

-- The part of isCloneMount below the cheap tests.
compare_inodes : ℕ → Agent → Parsers → Loc → Loc → Result InodeError Bool × Parsers
unfolding fetch_inode ancestry_line_match same_inode both
compare_inodes fuel agent ps m1 m2 =
    let (r1, ps1) = fetch_inode fuel agent ps m1 in
    let (r2, ps2) = fetch_inode fuel agent ps1 m2 in
    elim r1 [
      | err e ↦ (err e, ps1)
      | ok _ ↦ elim r2 [
        | err e ↦ (err e, ps2)
        | ok _ ↦
            if both (read ps2 m1) (read ps2 m2) same_inode
            then (let (matched, ps3) = ancestry_line_match fuel agent ps2 m2 m1 in
                (ok matched, ps3))
            else (ok false, ps2)
      ]
    ]

-- isCloneMount.
unfoldable pub is_clone_of : ℕ → Agent → Parsers → Loc → Loc → Result InodeError Bool × Parsers
unfolding compare_inodes same_attributes both
is_clone_of fuel agent ps m1 m2 =
    if both (read ps m1) (read ps m2) (λ a b. a.mount_id == b.mount_id)
    then (ok false, ps)
    else if not (both (read ps m1) (read ps m2) same_attributes)
    then (ok false, ps)
    else compare_inodes fuel agent ps m1 m2

-- IsRootMount of the container's parser.
unfoldable pub is_root_mount : ℕ → Agent → Parsers → Loc → Result InodeError Bool × Parsers
unfolding is_clone_of both lookup
is_root_mount fuel agent ps m = elim (lookup "/" ps.container.mp_info) [
  | none ↦ (ok false, ps)
  | some r ↦
      if both (read ps m) (read ps (in_container, r)) (λ a b. a.mount_id == b.mount_id)
      then (ok true, ps)
      else is_clone_of fuel agent ps (in_container, r) m
]

skip_candidate : Bool → Option MountInfo → Bool
skip_candidate readonly none = true
skip_candidate readonly (some c) = readonly && not (is_read_only_mount (string_to_flags c.options))

-- The loop of IsCloneMount over the candidates.
clone_loop : ℕ → Agent → Bool → Loc → List ℕ → Parsers → Result InodeError Bool × Parsers
unfolding is_clone_of skip_candidate
clone_loop fuel agent readonly m [] ps = (ok false, ps)
clone_loop fuel agent readonly m (c ∷ cs) ps =
    let (r, ps') = is_clone_of fuel agent ps (in_container, c) m in
    let skipped = clone_loop fuel agent readonly m cs ps in
    if skip_candidate readonly (read ps (in_container, c)) then skipped else elim r [
      | err e ↦ (err e, ps')
      | ok true ↦ (ok true, ps')
      | ok false ↦ clone_loop fuel agent readonly m cs ps'
    ]

candidates : Parsers → Option MountInfo → List ℕ
unfolding lookup
candidates ps none = []
candidates ps (some info) = elim (lookup info.major_minor_ver ps.container.fs_id_info) [
  | none ↦ []
  | some rs ↦ rs
]

-- IsCloneMount of the container's parser, for a mount that the process sees.
unfoldable pub is_clone_mount : ℕ → Agent → Bool → Parsers → Loc → Result InodeError Bool × Parsers
unfolding clone_loop candidates
is_clone_mount fuel agent readonly ps m =
    clone_loop fuel agent readonly m (candidates ps (read ps m)) ps
