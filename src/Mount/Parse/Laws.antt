-- ===== src/Mount/Parse/Laws.antt =====
-- What the parser holds after a mountinfo file, and the lines that it refuses.
use mathlib.Core.Path.{subst}
use mathlib.Core.List.{append-nil, append_assoc}
use sysbox_fs.Prelude.{
  ◌<◌, ◌≡◌, refl, sym, ap, ◌∙◌, String, Bool, List, [], ◌∷◌, ◌++◌, arith, length, Result, ok, err,
  keep, last_match, inl, inr, Result-cases,
}
use sysbox_fs.Text.{split_on}
use sysbox_fs.Prelude.Int.{ℤ}
use sysbox_fs.Mount.Info.{
  MountInfo, MountInfoParser, MountPaths, new_parser, add_mount, get_info, lookup_by_mount_id,
  fs_id_slice,
}
use sysbox_fs.Mount.Info.Indexed.{
  IsIndexed, IsIndexed-new, add_mount-IsIndexed, at_mountpoint, with_id, on_fs,
}
use sysbox_fs.Mount.Parse.{ParseError, not_enough_fields, parse_components, parse_data}

-- The mounts of the lines, if every line parses; otherwise the error of the first that does not.
unfoldable pub parse_all : Bool → List String → Result ParseError (List MountInfo)
parse_all fetch [] = ok []
parse_all fetch (line ∷ lines) = elim (parse_components fetch line) [
  | err e ↦ err e
  | ok m ↦ elim (parse_all fetch lines) [ err e ↦ err e | ok ms ↦ ok (m ∷ ms) ]
]

-- `mi` after a file whose lines hold the mounts `ms`.
record Holds (mi : MountInfoParser) (ms : List MountInfo) : Type 0 where
  heap : mi.heap ≡ ms
  indexed : IsIndexed mi

add_mount-Holds :
    (mi : MountInfoParser) (before : List MountInfo) (m : MountInfo)
    → Holds mi before
    → Holds (add_mount mi m) (before ++ m ∷ [])
add_mount-Holds mi before m h = record {
  heap = unfold add_mount in ap (λ (l : List MountInfo). l ++ m ∷ []) h.heap;
  indexed = add_mount-IsIndexed mi m h.indexed;
}

parse_data-Holds :
    (mi : MountInfoParser) (before ms : List MountInfo) (lines : List String)
    → Holds mi before
    → parse_all mi.fetch_options lines ≡ ok ms
    → (mi' : MountInfoParser) × (parse_data mi lines ≡ ok mi') × Holds mi' (before ++ ms)
unfolding parse_data parse_all
parse_data-Holds mi before ms [] h e = (
  mi,
  refl,
  record {
    heap =
        h.heap ∙ sym (append-nil before) ∙ ap (λ (l : List MountInfo). before ++ l) (ground arith);
    indexed = h.indexed;
  },
)
parse_data-Holds mi before ms (line ∷ lines) h e =
    elim (Result-cases (parse_components mi.fetch_options line)) [
      | inr (_, bad) ↦ ground arith
      | inl (m, good) ↦ elim (Result-cases (parse_all mi.fetch_options lines)) [
        | inr (_, bad) ↦ ground arith
        | inl (rest, all) ↦
            let (mi', run, hold) =
              parse_data-Holds (add_mount mi m) (before ++ m ∷ []) rest lines
                (add_mount-Holds mi before m h) all in
            let same : m ∷ rest ≡ ms = ground arith in
            (
              mi',
              rw good run,
              subst (Holds mi')
                  (append_assoc before (m ∷ []) rest
                    ∙ ap (λ (l : List MountInfo). before ++ l) same)
                  hold,
            )
      ]
    ]

-- A file whose lines all parse gives a parser whose three maps answer by the list of its mounts:
-- the last mount at a mountpoint, the last one with an ID, and all those of a file system in order.
pub parse_data-new :
    (fetch : Bool) (paths : MountPaths) (lines : List String) (ms : List MountInfo)
    → parse_all fetch lines ≡ ok ms
    → (mi : MountInfoParser) × (parse_data (new_parser fetch paths) lines ≡ ok mi)
      × ((mp : String) → get_info mi mp ≡ last_match (at_mountpoint mp) ms)
      × ((id : ℤ) → lookup_by_mount_id mi id ≡ last_match (with_id id) ms)
      × ((v : String) → fs_id_slice mi v ≡ keep (on_fs v) ms)
parse_data-new fetch paths lines ms e =
    let start : Holds (new_parser fetch paths) [] = record {
      heap = refl;
      indexed = IsIndexed-new fetch paths;
    } in
    let (mi, run, hold) = parse_data-Holds (new_parser fetch paths) [] ms lines start e in
    (
      mi,
      run,
      λ mp. hold.indexed.by_mountpoint mp ∙ ap (last_match (at_mountpoint mp)) hold.heap,
      λ id. hold.indexed.by_id id ∙ ap (last_match (with_id id)) hold.heap,
      λ v. hold.indexed.by_fs v ∙ ap (keep (on_fs v)) hold.heap,
    )

-- A file with a bad line is refused whole, with the error of the first bad line.
pub parse_data-error :
    (mi : MountInfoParser) (lines : List String) (x : ParseError)
    → parse_all mi.fetch_options lines ≡ err x
    → parse_data mi lines ≡ err x
unfolding parse_data parse_all
parse_data-error mi [] x e = ground arith
parse_data-error mi (line ∷ lines) x e =
    elim (Result-cases (parse_components mi.fetch_options line)) [
      | inr (y, bad) ↦ rw bad (ground arith)
      | inl (m, good) ↦ rw good (parse_data-error (add_mount mi m) lines x (ground arith))
    ]

-- A line of fewer than ten fields is refused.
pub parse_components-short :
    (fetch : Bool) (line : String)
    → length (split_on b' ' line) < 10
    → parse_components fetch line ≡ err not_enough_fields
unfolding parse_components
parse_components-short fetch line h = ground arith
