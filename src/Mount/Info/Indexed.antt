-- ===== src/Mount/Info/Indexed.antt =====
-- The three maps of the parser against the list of the mounts that were parsed.
use sysbox_fs.Prelude.{
  ℕ, ◌+◌, ◌<◌, ◌≡◌, refl, eq_iff, ap, sym, ◌≢◌, last_match_sound, get_elem?-lt, ◌∙◌, inl, inr,
  String, Bool, true, false, Option, none, some, List, [], ◌∷◌, ◌++◌, arith, ◌==◌, string_eq,
  length, get_elem?, keep, last_match, last_match-snoc, keep-snoc, get_elem?-snoc_self,
  get_elem?-snoc_lt, length-append, Bool-cases, if◌then◌else◌,
}
use sysbox_fs.Prelude.Maps.{lookup, lookup-insert}
use sysbox_fs.Prelude.Int.{ℤ, int_eq}
use sysbox_fs.Mount.Info.{
  MountInfo, MountInfoParser, MountPaths, new_parser, deref, deref_all, append_ref, add_mount,
  get_info, lookup_by_mount_id, fs_id_slice, slice_of,
}

abbrev pub at_mountpoint : String → MountInfo → Bool
at_mountpoint mp info = info.mount_point == mp

abbrev pub with_id : ℤ → MountInfo → Bool
with_id id info = info.mount_id == id

abbrev pub on_fs : String → MountInfo → Bool
on_fs v info = info.major_minor_ver == v

abbrev AllBelow : ℕ → List ℕ → Type 0
AllBelow n [] = Unit
AllBelow n (r ∷ rs) = (r < n) × AllBelow n rs

abbrev RefsBelow : ℕ → Option (List ℕ) → Type 0
RefsBelow n none = Unit
RefsBelow n (some rs) = AllBelow n rs

abbrev RefBelow : ℕ → Option ℕ → Type 0
RefBelow n none = Unit
RefBelow n (some r) = r < n

-- The maps lead to the last mount at a mountpoint, to the last one with an ID, and to all the mounts
-- of a file system, in the order of the lines.
pub record IsIndexed (mi : MountInfoParser) : Type 0 where
  pub mp_refs : (mp : String) → RefBelow (length mi.heap) (lookup mp mi.mp_info)
  pub id_refs : (id : ℤ) → RefBelow (length mi.heap) (lookup id mi.id_info)
  pub fs_refs : (v : String) → RefsBelow (length mi.heap) (lookup v mi.fs_id_info)
  pub by_mountpoint : (mp : String) → get_info mi mp ≡ last_match (at_mountpoint mp) mi.heap
  pub by_id : (id : ℤ) → lookup_by_mount_id mi id ≡ last_match (with_id id) mi.heap
  pub by_fs : (v : String) → fs_id_slice mi v ≡ keep (on_fs v) mi.heap

pub IsIndexed-new : (fetch : Bool) (paths : MountPaths) → IsIndexed (new_parser fetch paths)
unfolding lookup get_info lookup_by_mount_id fs_id_slice
IsIndexed-new fetch paths = record {
  mp_refs = λ mp. tt;
  id_refs = λ id. tt;
  fs_refs = λ v. tt;
  by_mountpoint = λ mp. refl;
  by_id = λ id. refl;
  by_fs = λ v. refl;
}

RefBelow-suc : (n : ℕ) (o : Option ℕ) → RefBelow n o → RefBelow (n + 1) o
RefBelow-suc n none h = tt
RefBelow-suc n (some r) h = omega arith

AllBelow-suc : (n : ℕ) (rs : List ℕ) → AllBelow n rs → AllBelow (n + 1) rs
AllBelow-suc n [] h = tt
AllBelow-suc n (r ∷ rs) h = (omega arith, AllBelow-suc n rs h.1)

RefsBelow-suc : (n : ℕ) (o : Option (List ℕ)) → RefsBelow n o → RefsBelow (n + 1) o
RefsBelow-suc n none h = tt
RefsBelow-suc n (some rs) h = AllBelow-suc n rs h

append_ref-Below : (n : ℕ) (o : Option (List ℕ)) → RefsBelow n o → AllBelow (n + 1) (append_ref o n)
unfolding append_ref
append_ref-Below n none h = omega arith
append_ref-Below n (some []) h = omega arith
append_ref-Below n (some (r ∷ rs)) h = (omega arith, append_ref-Below n (some rs) h.1)

length-snoc : {A : Type 0} (xs : List A) (x : A) → length (xs ++ x ∷ []) ≡ length xs + 1
length-snoc xs x = omega (arith, length-append xs (x ∷ []))

module _ (mi : MountInfoParser) (x : MountInfo) where
  deref-snoc :
      (mi' : MountInfoParser) (o : Option ℕ)
      → mi'.heap ≡ mi.heap ++ x ∷ []
      → RefBelow (length mi.heap) o
      → deref mi' o ≡ deref mi o
  deref-snoc mi' none e h = refl
  deref-snoc mi' (some r) e h = rw e (get_elem?-snoc_lt mi.heap x r h)

  deref_all-snoc :
      (mi' : MountInfoParser) (rs : List ℕ)
      → mi'.heap ≡ mi.heap ++ x ∷ []
      → AllBelow (length mi.heap) rs
      → deref_all mi' rs ≡ deref_all mi rs
  deref_all-snoc mi' [] e h = refl
  deref_all-snoc mi' (r ∷ rs) e h = ground (
    arith,
    ap (λ (hp : List MountInfo). get_elem? hp r) e,
    get_elem?-snoc_lt mi.heap x r h.0,
    deref_all-snoc mi' rs e h.1,
  )

  get_info-add :
      IsIndexed mi
      → (mp : String)
      → get_info (add_mount mi x) mp ≡ last_match (at_mountpoint mp) (mi.heap ++ x ∷ [])
  unfolding get_info add_mount
  get_info-add v mp =
      rw (lookup-insert, last_match-snoc)
        (elim (Bool-cases (x.mount_point == mp)) [
          | inl hit ↦ rw hit (get_elem?-snoc_self mi.heap x)
          | inr miss ↦
              rw miss (deref-snoc (add_mount mi x) _ refl (v.mp_refs mp) ∙ v.by_mountpoint mp)
        ])

  lookup_by_mount_id-add :
      IsIndexed mi
      → (id : ℤ)
      → lookup_by_mount_id (add_mount mi x) id ≡ last_match (with_id id) (mi.heap ++ x ∷ [])
  unfolding lookup_by_mount_id add_mount
  lookup_by_mount_id-add v id =
      rw (lookup-insert, last_match-snoc)
        (elim (Bool-cases (x.mount_id == id)) [
          | inl hit ↦ rw hit (get_elem?-snoc_self mi.heap x)
          | inr miss ↦ rw miss (deref-snoc (add_mount mi x) _ refl (v.id_refs id) ∙ v.by_id id)
        ])

  deref_all-append_self :
      (mi' : MountInfoParser) (rs : List ℕ) (r : ℕ)
      → get_elem? mi'.heap r ≡ some x
      → deref_all mi' (rs ++ r ∷ []) ≡ deref_all mi' rs ++ x ∷ []
  deref_all-append_self mi' [] r e = ground (arith, e)
  deref_all-append_self mi' (q ∷ qs) r e = ground (arith, deref_all-append_self mi' qs r e)

  slice_of-append :
      (mi' : MountInfoParser) (o : Option (List ℕ))
      → mi'.heap ≡ mi.heap ++ x ∷ []
      → RefsBelow (length mi.heap) o
      → deref_all mi' (append_ref o (length mi.heap)) ≡ slice_of mi o ++ x ∷ []
  unfolding append_ref
  slice_of-append mi' none e h =
      deref_all-append_self mi' [] (length mi.heap) (rw e (get_elem?-snoc_self mi.heap x))
  slice_of-append mi' (some rs) e h =
      deref_all-append_self mi' rs (length mi.heap) (rw e (get_elem?-snoc_self mi.heap x))
      ∙ ap (λ (l : List MountInfo). l ++ x ∷ []) (deref_all-snoc mi' rs e h)

  slice_of-snoc :
      (mi' : MountInfoParser) (o : Option (List ℕ))
      → mi'.heap ≡ mi.heap ++ x ∷ []
      → RefsBelow (length mi.heap) o
      → slice_of mi' o ≡ slice_of mi o
  slice_of-snoc mi' none e h = refl
  slice_of-snoc mi' (some rs) e h = deref_all-snoc mi' rs e h

  fs_id_slice-add :
      IsIndexed mi
      → (v : String) → fs_id_slice (add_mount mi x) v ≡ keep (on_fs v) (mi.heap ++ x ∷ [])
  unfolding fs_id_slice add_mount
  fs_id_slice-add ix v =
      rw (lookup-insert, keep-snoc)
        (elim (Bool-cases (x.major_minor_ver == v)) [
          | inl hit ↦
              let same : x.major_minor_ver ≡ v = (eq_iff x.major_minor_ver v).0 hit in
              rw hit (
                slice_of-append (add_mount mi x) _ refl (ix.fs_refs x.major_minor_ver)
                ∙ ap (λ (l : List MountInfo). l ++ x ∷ []) (rw same (ix.by_fs v)))
          | inr miss ↦ rw miss (slice_of-snoc (add_mount mi x) _ refl (ix.fs_refs v) ∙ ix.by_fs v)
        ])

  RefBelow-add :
      (b : Bool) (o : Option ℕ)
      → RefBelow (length mi.heap) o
      → RefBelow (length (mi.heap ++ x ∷ [])) (if b then some (length mi.heap) else o)
  RefBelow-add true o h = rw (length-snoc mi.heap x) (omega arith)
  RefBelow-add false o h = rw (length-snoc mi.heap x) (RefBelow-suc _ o h)

  RefsBelow-add :
      (b : Bool) (o p : Option (List ℕ))
      → RefsBelow (length mi.heap) o
      → RefsBelow (length mi.heap) p
      → RefsBelow
          (length (mi.heap ++ x ∷ []))
          (if b then some (append_ref p (length mi.heap)) else o)
  RefsBelow-add true o p h k = rw (length-snoc mi.heap x) (append_ref-Below _ p k)
  RefsBelow-add false o p h k = rw (length-snoc mi.heap x) (RefsBelow-suc _ o h)

  -- Recording a parsed mount keeps the three maps in step with the list of mounts: the maps by
  -- mountpoint and by ID find the last mount of a key, the one by file system all mounts in order.
  pub add_mount-IsIndexed : IsIndexed mi → IsIndexed (add_mount mi x)
  unfolding add_mount
  add_mount-IsIndexed ix = record {
    mp_refs = λ mp. rw lookup-insert (RefBelow-add _ _ (ix.mp_refs mp));
    id_refs = λ id. rw lookup-insert (RefBelow-add _ _ (ix.id_refs id));
    fs_refs = λ v. rw lookup-insert (RefsBelow-add _ _ _ (ix.fs_refs v) (ix.fs_refs _));
    by_mountpoint = get_info-add ix;
    by_id = lookup_by_mount_id-add ix;
    by_fs = fs_id_slice-add ix;
  }

-- An entry of the map of mountpoints leads to a mount at that very mountpoint.
pub get_info-mount_point :
    (mi : MountInfoParser) (mp : String) {info : MountInfo}
    → IsIndexed mi
    → get_info mi mp ≡ some info
    → info.mount_point ≡ mp
get_info-mount_point mi mp ix e =
    (eq_iff _ mp).0 (last_match_sound (at_mountpoint mp) mi.heap (sym (ix.by_mountpoint mp) ∙ e))

deref-below :
    (mi : MountInfoParser) (o : Option ℕ)
    → o ≢ none
    → RefBelow (length mi.heap) o
    → deref mi o ≢ none
deref-below mi none h b = absurd (h refl)
deref-below mi (some r) h b = get_elem?-lt mi.heap r b

pub get_info-key :
    (mi : MountInfoParser) (mp : String)
    → IsIndexed mi
    → lookup mp mi.mp_info ≢ none
    → get_info mi mp ≢ none
unfolding get_info
get_info-key mi mp ix h = deref-below mi (lookup mp mi.mp_info) h (ix.mp_refs mp)
