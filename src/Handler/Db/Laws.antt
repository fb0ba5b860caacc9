-- ===== src/Handler/Db/Laws.antt =====
-- Which handler serves a path.
use sysbox_fs.Prelude.{
  String, ◌≡◌, inl, inr, subst, Bool, true, false, Option, none, some, List, [], ◌∷◌, ◌++◌, ◌==◌,
  string_eq, ok, arith, ==-refl, Bool-cases, Option-cases, find, if◌then◌else◌,
}
use sysbox_fs.Handler.Db.{
  Radix, Handler, register_handler, unregister_handler, register_all, register_ignoring,
  find_handler, walk_resources,
}

-- What the documentation of go-immutable-radix says of Get after Insert and Delete.
pub record RadixLaws (radix : Radix Handler) : Type 0 where
  pub get-empty : (path : String) → radix.get radix.empty path ≡ none
  pub get-insert :
      (tree : radix.Tree) (key path : String) (h : Handler)
      → radix.get (radix.insert tree key h) path
        ≡ (if key == path then some h else radix.get tree path)
  pub get-delete :
      (tree : radix.Tree) (key path : String)
      → radix.get (radix.delete tree key) path ≡ (if key == path then none else radix.get tree path)

abbrev pub serves : String → Handler → Bool
serves path h = h.path == path

abbrev pub with_service : Option Handler → Option Handler
with_service none = none
with_service (some h) = some (record h { has_service = true })

abbrev pub or_else : Option Handler → Option Handler → Option Handler
or_else (some h) other = some h
or_else none other = other

module _ (radix : Radix Handler) (laws : RadixLaws radix) where
  -- After all handlers of a list are registered, a path finds the handler that it found before, or
  -- else the first of the list that declares it, with its service set: a later handler for the same
  -- path is dropped.
  pub register_all-find :
      (tree : radix.Tree) (hs : List Handler) (path : String)
      → find_handler radix (register_all radix tree hs) path
        ≡ or_else (find_handler radix tree path) (with_service (find (serves path) hs))
  unfolding register_all register_ignoring register_handler
  register_all-find tree [] path = ground arith
  register_all-find tree (h ∷ hs) path =
      let set : Handler = record h { has_service = true } in
      let grown = radix.insert tree h.path set in
      elim (Option-cases (radix.get tree h.path)) [
        | inr (old, e) ↦ elim (Bool-cases (h.path == path)) [
          | inl same ↦
              let there : radix.get tree path ≡ some old =
                subst (λ p. radix.get tree p ≡ some old) ((string_eq.equal_iff h.path path).0 same)
                  e in
              ground (arith, register_all-find tree hs path)
          | inr other ↦ ground (arith, register_all-find tree hs path)
        ]
        | inl e ↦ elim (Bool-cases (h.path == path)) [
          | inl same ↦
              let there : radix.get tree path ≡ none =
                subst (λ p. radix.get tree p ≡ none) ((string_eq.equal_iff h.path path).0 same) e in
              ground (arith, register_all-find grown hs path, laws.get-insert tree h.path path set)
          | inr other ↦
              ground (arith, register_all-find grown hs path, laws.get-insert tree h.path path set)
        ]
      ]

  restored :
      (tree tree' : radix.Tree) (h : Handler) (path : String) (set : Handler)
      → radix.get tree h.path ≡ none
      → radix.insert tree h.path set ≡ tree'
      → radix.get (radix.delete tree' h.path) path ≡ radix.get tree path
  restored tree tree' h path set free grown =
      let deleted = laws.get-delete tree' h.path path in
      let inserted = laws.get-insert tree h.path path set in
      elim (Bool-cases (h.path == path)) [
        | inl same ↦
            let there : radix.get tree path ≡ none =
              subst (λ p. radix.get tree p ≡ none) ((string_eq.equal_iff h.path path).0 same)
                free in
            ground (arith, deleted)
        | inr other ↦ ground (arith, deleted, inserted)
      ]

  -- Unregistering the handler just registered succeeds, and every path finds what it found before.
  pub register-unregister :
      (tree tree' : radix.Tree) (h : Handler)
      → register_handler radix tree h ≡ ok tree'
      → (back : radix.Tree) × (unregister_handler radix tree' h ≡ ok back)
        × ((path : String) → find_handler radix back path ≡ find_handler radix tree path)
  unfolding register_handler unregister_handler
  register-unregister tree tree' h e =
      let set : Handler = record h { has_service = true } in
      elim (Option-cases (radix.get tree h.path)) [
        | inr (old, there) ↦ absurd (ground arith)
        | inl free ↦
            let grown : radix.insert tree h.path set ≡ tree' = ground arith in
            (
              radix.delete tree' h.path,
              ground (arith, laws.get-insert tree h.path h.path set, ==-refl h.path),
              λ path. restored tree tree' h path set free grown,
            )
      ]

-- The list of resources ends at the first handler that is disabled: what the handlers behind it in
-- the tree emulate is missing.
pub walk_resources-disabled :
    (before after : List Handler) (h : Handler)
    → h.enabled ≡ false
    → walk_resources (before ++ h ∷ after) ≡ walk_resources before
unfolding walk_resources
walk_resources-disabled [] after h off = ground arith
walk_resources-disabled (b ∷ before) after h off =
    ground (arith, walk_resources-disabled before after h off)
