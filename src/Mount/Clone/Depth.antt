-- ===== src/Mount/Clone/Depth.antt =====
-- The loop over a mount's ancestors: it ends on a tree of mounts, and the bound on its rounds is no
-- restriction.
use mathlib.Core.List.{Memᴰ}
use sysbox_fs.Prelude.Membership.{any-of_Memᴰ, last_match-Memᴰ}
use sysbox_fs.Prelude.{
  any, not, Bool, true, false, ltb, ℕ, zero, suc, ◌<◌, String, ◌≡◌, Option, none, some, List, [],
  ◌∷◌, arith, last_match, Option-cases, inl, inr,
}
use sysbox_fs.Prelude.Int.{ℤ}
use sysbox_fs.Mount.Info.{MountInfo, MountInfoParser, get_parent_mount, lookup_by_mount_id}
use sysbox_fs.Mount.Info.Indexed.{IsIndexed, with_id}
use sysbox_fs.Mount.Clone.{ancestor_mountpoints}

-- The parent of a mount, by the lines of mountinfo: the last one with the ID that it names.
abbrev pub parent_line : MountInfoParser → MountInfo → Option MountInfo
parent_line mi info = last_match (with_id info.parent_id) mi.heap

-- A mount's way up to a mount whose parent is not listed, with the mountpoints on it.
pub data IsLine (mi : MountInfoParser) : MountInfo → List String → Type 0 where
  top : {info : MountInfo} → parent_line mi info ≡ none → IsLine mi info (info.mount_point ∷ [])
  below :
      {info parent : MountInfo} {mps : List String}
      → parent_line mi info ≡ some parent
      → IsLine mi parent mps
      → IsLine mi info (info.mount_point ∷ mps)

-- The parser's maps give the parent of the lines.
get_parent_mount-line :
    (mi : MountInfoParser) (info : MountInfo)
    → IsIndexed mi
    → get_parent_mount mi info ≡ parent_line mi info
unfolding get_parent_mount lookup_by_mount_id
get_parent_mount-line mi info ix = ix.by_id info.parent_id

-- A mount is higher than its listed parent, by a height for each ID.
abbrev pub is_above : (ℤ → ℕ) → MountInfo → Option MountInfo → Bool
is_above height info none = true
is_above height info (some parent) = ltb (height parent.mount_id) (height info.mount_id)

-- With maps in step with the mounts, where each mount is higher, by some height for each ID, than the
-- last listed mount with the ID that it names as its parent, the loop over the ancestors of a listed
-- mount ends: within any bound above the height of the mount it collects the mountpoints of the
-- mount, of its parent and so on, up to a mount whose parent is not listed.
pub ancestor_mountpoints-IsLine :
    (mi : MountInfoParser) (height : ℤ → ℕ)
    → IsIndexed mi
    → any (λ info. not (is_above height info (parent_line mi info))) mi.heap ≡ false
    → (info : MountInfo) (depth : ℕ) → Memᴰ info mi.heap
    → height info.mount_id < depth
    → IsLine mi info (ancestor_mountpoints depth mi (some info))
unfolding ancestor_mountpoints
ancestor_mountpoints-IsLine mi height ix tree info zero there h = absurd (omega arith)
ancestor_mountpoints-IsLine mi height ix tree info (suc depth) there h =
    let up = get_parent_mount-line mi info ix in
    elim (Option-cases (parent_line mi info)) [
      | inl none_listed ↦ rw (up, none_listed) (top none_listed)
      | inr (parent, listed) ↦
          let member = last_match-Memᴰ (with_id info.parent_id) mi.heap parent listed in
          let lower : height parent.mount_id < height info.mount_id = ground (
            arith,
            any-of_Memᴰ (λ i. not (is_above height i (parent_line mi i))) mi.heap info there,
          ) in
          rw (up, listed)
            (below listed
              (ancestor_mountpoints-IsLine mi height ix tree parent depth member (omega arith)))
    ]
