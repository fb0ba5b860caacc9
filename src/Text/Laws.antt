-- ===== src/Text/Laws.antt =====
-- Prefixes and suffixes of texts.
use Prim.Native.String.{String}
use sysbox_fs.Prelude.{◌≡◌, refl, true, arith, string_eq}
use sysbox_fs.Text.{has_prefix, drop_prefix, trim_prefix, has_suffix}

has_prefix_self : (s : String) → has_prefix s s ≡ true
unfolding has_prefix
has_prefix_self String.[] = refl
has_prefix_self (String.◌∷◌ c s) = ground (arith, has_prefix_self s)

drop_prefix_self : (s : String) → drop_prefix s s ≡ ""
unfolding drop_prefix
drop_prefix_self String.[] = refl
drop_prefix_self (String.◌∷◌ c s) = drop_prefix_self s

-- A text less itself is empty.
pub trim_prefix_self : (s : String) → trim_prefix s s ≡ ""
unfolding trim_prefix
trim_prefix_self s = rw (has_prefix_self, drop_prefix_self)

-- Every text ends in the empty one.
pub has_suffix-empty : (s : String) → has_suffix s "" ≡ true
unfolding has_suffix
has_suffix-empty String.[] = refl
has_suffix-empty (String.◌∷◌ c s) = ground (arith, has_suffix-empty s)
