-- ===== src/Handler/Db.antt =====
-- The handlers by the paths that they serve (handler/handlerDB.go). The radix tree is a library's: a
-- parameter.
pub mod Laws
use sysbox_fs.Prelude.{
  ℕ, String, ◌≡◌, Bool, true, false, not, Option, none, some, List, [], ◌∷◌, ◌++◌, map, keep, ◌==◌,
  string_eq, Result, ok, err, if◌then◌else◌,
}
use sysbox_fs.Text.{join}

-- A tree from paths to values. `longest_prefix` finds the value of the longest key that the path
-- starts with; `entries` is the order in which Walk visits.
pub record Radix (A : Type 0) : Type 1 where
  pub Tree : Type 0
  pub empty : Tree
  pub get : Tree → String → Option A
  pub insert : Tree → String → A → Tree
  pub delete : Tree → String → Tree
  pub longest_prefix : Tree → String → Option (String × A)
  pub entries : Tree → List A

-- The name of an emulated resource of a handler, and whether it is enabled.
pub record EmuResource : Type 0 where
  pub key : String
  pub enabled : Bool

pub record Handler : Type 0 where
  pub name : String
  pub path : String
  pub enabled : Bool
  pub emu_resources : List EmuResource
  pub has_service : Bool

pub data DbError : Type 0 where
  already_registered not_registered : DbError

-- GetResourcesList of a handler, in the order that the map gives.
unfoldable pub get_resources_list : Handler → List String
get_resources_list h = map (λ r. join h.path r.key) (keep (λ r. r.enabled) h.emu_resources)

-- The walk of HandlersResourcesList, which a function that returns true ends.
unfoldable pub walk_resources : List Handler → List String
unfolding get_resources_list
walk_resources [] = []
walk_resources (h ∷ hs) = if not h.enabled then [] else get_resources_list h ++ walk_resources hs

module _ (radix : Radix Handler) where
  -- The handler object is given the service before it is inserted.
  unfoldable pub register_handler : radix.Tree → Handler → Result DbError radix.Tree
  register_handler tree h = elim (radix.get tree h.path) [
    | some old ↦ err already_registered
    | none ↦ ok (radix.insert tree h.path (record h { has_service = true }))
  ]

  unfoldable pub unregister_handler : radix.Tree → Handler → Result DbError radix.Tree
  unregister_handler tree h = elim (radix.get tree h.path) [
    | none ↦ err not_registered
    | some old ↦ ok (radix.delete tree h.path)
  ]

  abbrev pub find_handler : radix.Tree → String → Option Handler
  find_handler tree path = radix.get tree path

  unfoldable pub lookup_handler : radix.Tree → String → Option Handler
  lookup_handler tree path = elim (radix.longest_prefix tree path) [
    | none ↦ none
    | some (key, h) ↦ some h
  ]

  register_ignoring : radix.Tree → Handler → radix.Tree
  unfolding register_handler
  register_ignoring tree h = elim (register_handler tree h) [ err e ↦ tree | ok t ↦ t ]

  -- The loop of Setup, which drops the errors of RegisterHandler.
  unfoldable pub register_all : radix.Tree → List Handler → radix.Tree
  unfolding register_ignoring
  register_all tree [] = tree
  register_all tree (h ∷ hs) = register_all (register_ignoring tree h) hs

  unfoldable pub handlers_resources_list : radix.Tree → List String
  unfolding walk_resources
  handlers_resources_list tree = walk_resources (radix.entries tree)
