-- ===== src/Process/Path/Laws.antt =====
-- Paths with a slash at the end.
use Prim.Native.Char.{Char, code}
use Prim.Native.String.{String}
use text.Mathlib.TextLemmas.{cons-append}
use sysbox_fs.Prelude.{
  ℕ, ◌≡◌, inl, inr, refl, false, ◌==◌, string_eq, List, [], ◌∷◌, ◌++◌, ok, Result-cases, arith,
  if◌then◌else◌, Bool-cases, nat_beq,
}
use sysbox_fs.Text.{split_on, concat, is_abs}
use sysbox_fs.Process.Path.{Files, Lookup, visit, walk, path_access, symlink_max}

split_on-nonempty :
    (sep : ℕ) (s : String) → (w : String) × (ws : List String) × (split_on sep s ≡ w ∷ ws)
unfolding split_on
split_on-nonempty sep String.[] = ("", [], refl)
split_on-nonempty sep (String.◌∷◌ c s) =
    let (w, ws, e) = split_on-nonempty sep s in
    elim (Bool-cases (nat_beq (code c) sep)) [
      | inl h ↦ ("", w ∷ ws, ground arith)
      | inr h ↦ (String.◌∷◌ c w, ws, ground arith)
    ]

split_on-snoc :
    (sep : ℕ) (s : String) (ws : List String) (t : String)
    → split_on sep t ≡ split_on sep s ++ ws
    → (c : Char) → split_on sep (String.◌∷◌ c t) ≡ split_on sep (String.◌∷◌ c s) ++ ws
unfolding split_on
split_on-snoc sep s ws t h c =
    let (v, vs, e) = split_on-nonempty sep s in
    elim (Bool-cases (nat_beq (code c) sep)) [ inl b ↦ ground arith | inr b ↦ ground arith ]

-- A slash at the end adds an empty component.
pub split_on-slash_end : (p : String) → split_on b'/' (concat p "/") ≡ split_on b'/' p ++ "" ∷ []
unfolding split_on
split_on-slash_end String.[] = refl
split_on-slash_end (String.◌∷◌ c s) =
    rw (cons-append c s "/")
      (split_on-snoc b'/' s ("" ∷ []) (concat s "/") (split_on-slash_end s) c)

pub walk-empty_end :
    (f : Files) (l : Lookup) (cs : List String) (cur : String) (left : ℕ) (r : String)
    → walk f l (cs ++ "" ∷ []) cur left ≡ ok r
    → r ≡ ""
unfolding walk
walk-empty_end f l [] cur left r h = ground arith
walk-empty_end f l (c ∷ []) cur left r h = ground (arith, walk-empty_end f l [] cur left r)
walk-empty_end f l (c ∷ d ∷ cs) cur left r h = elim (Bool-cases (c == "")) [
  | inl b ↦ walk-empty_end f l (d ∷ cs) cur left r (ground arith)
  | inr b ↦ elim (Result-cases (visit f l false cur left c)) [
    | inl ((there, rest), e) ↦ walk-empty_end f l (d ∷ cs) there rest r (ground arith)
    | inr (e, e') ↦ absurd (ground arith)
  ]
]

-- The resolution of a path with a slash at the end, if it succeeds, is the empty path.
pub path_access-slash_end :
    (f : Files) (l : Lookup) (p r : String) → path_access f l (concat p "/") ≡ ok r → r ≡ ""
unfolding path_access
path_access-slash_end f l p r h =
    walk-empty_end f l (split_on b'/' p) (if is_abs (concat p "/") then l.procroot else l.proccwd)
      symlink_max r (ground (arith, split_on-slash_end p))
