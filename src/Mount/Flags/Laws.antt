-- ===== src/Mount/Flags/Laws.antt =====
-- Setting, clearing and testing one flag, and the flags that a mount's options stand for.
use sysbox_fs.Prelude.{
  ℕ, ◌%◌, ◌≡◌, ◌≢◌, inl, inr, refl, String, true, false, ◌||◌, [], ◌∷◌, arith, ◌==◌, eq_iff,
  string_eq, any, Bool-cases,
}
use sysbox_fs.Prelude.Maps.{Map, lookup}
use sysbox_fs.Mount.Flags.{
  has_flag, set_flag, clear_flag, add_option, string_to_flags, or_flag, other_flags, flags_map,
  ms_rdonly, ms_remount, ms_bind,
}

pub rdonly-set : (f : ℕ) → has_flag ms_rdonly (set_flag ms_rdonly f) ≡ true
unfolding set_flag
rdonly-set f = ground arith

pub rdonly-clear : (f : ℕ) → has_flag ms_rdonly (clear_flag ms_rdonly f) ≡ false
unfolding clear_flag
rdonly-clear f = ground arith

pub remount-set : (f : ℕ) → has_flag ms_remount (set_flag ms_remount f) ≡ true
unfolding set_flag
remount-set f = ground arith

pub bind-set : (f : ℕ) → has_flag ms_bind (set_flag ms_bind f) ≡ true
unfolding set_flag
bind-set f = ground arith

pub remount-set_bind : (f : ℕ) → has_flag ms_remount (set_flag ms_bind f) ≡ has_flag ms_remount f
unfolding set_flag
remount-set_bind f = ground arith

pub remount-set_rdonly :
    (f : ℕ) → has_flag ms_remount (set_flag ms_rdonly f) ≡ has_flag ms_remount f
unfolding set_flag
remount-set_rdonly f = ground arith

pub remount-clear_rdonly :
    (f : ℕ) → has_flag ms_remount (clear_flag ms_rdonly f) ≡ has_flag ms_remount f
unfolding clear_flag
remount-clear_rdonly f = ground arith

pub bind-set_rdonly : (f : ℕ) → has_flag ms_bind (set_flag ms_rdonly f) ≡ has_flag ms_bind f
unfolding set_flag
bind-set_rdonly f = ground arith

pub bind-clear_rdonly : (f : ℕ) → has_flag ms_bind (clear_flag ms_rdonly f) ≡ has_flag ms_bind f
unfolding clear_flag
bind-clear_rdonly f = ground arith

pub rdonly-set_remount : (f : ℕ) → has_flag ms_rdonly (set_flag ms_remount f) ≡ has_flag ms_rdonly f
unfolding set_flag
rdonly-set_remount f = ground arith

pub rdonly-set_bind : (f : ℕ) → has_flag ms_rdonly (set_flag ms_bind f) ≡ has_flag ms_rdonly f
unfolding set_flag
rdonly-set_bind f = ground arith

rw_ne_ro : ◌≢◌ {A = String} "rw" "ro"
rw_ne_ro = ground (arith, eq_iff "rw" "ro")

rdonly-set_even : (v f : ℕ) → v % 2 ≡ 0 → has_flag ms_rdonly (set_flag v f) ≡ has_flag ms_rdonly f
unfolding set_flag
rdonly-set_even v f h = ground arith

abbrev AllEven : Map String ℕ → Type 0
AllEven [] = Unit
AllEven ((k, v) ∷ m) = (v % 2 ≡ 0) × AllEven m

rdonly-or_even :
    (k : String) (m : Map String ℕ) (f : ℕ)
    → AllEven m
    → has_flag ms_rdonly (or_flag (lookup k m) f) ≡ has_flag ms_rdonly f
unfolding lookup or_flag
rdonly-or_even k [] f h = refl
rdonly-or_even k ((j, v) ∷ m) f h = elim (Bool-cases (j == k)) [
  | inl hit ↦ rw hit (rdonly-set_even v f h.0)
  | inr miss ↦ rw miss (rdonly-or_even k m f h.1)
]

other_flags_even : AllEven other_flags
other_flags_even = omega arith

rdonly-or_ro :
    (k : String) (f : ℕ)
    → has_flag ms_rdonly (or_flag (lookup k flags_map) f) ≡ ("ro" == k || has_flag ms_rdonly f)
unfolding lookup or_flag
rdonly-or_ro k f = elim (Bool-cases ("ro" == k)) [
  | inl hit ↦ rw hit (rdonly-set f)
  | inr miss ↦ rw miss (rdonly-or_even k other_flags f other_flags_even)
]

-- A further option adds the read-only flag exactly if it is "ro".
rdonly-add_option :
    (k : String) (f : ℕ) → has_flag ms_rdonly (add_option k f) ≡ (k == "ro" || has_flag ms_rdonly f)
unfolding add_option
rdonly-add_option k f = elim (Bool-cases (k == "rw")) [
  | inl skip ↦ rw skip (ground (arith, rw_ne_ro, eq_iff k "rw", eq_iff k "ro"))
  | inr go ↦ rw (go, rdonly-or_ro) (ground (arith, eq_iff k "ro", eq_iff "ro" k))
]

-- The flags of a mount's options have MS_RDONLY exactly if one of the options is "ro".
pub rdonly-string_to_flags :
    (s : Map String String) → has_flag ms_rdonly (string_to_flags s) ≡ any (λ o. o.0 == "ro") s
unfolding string_to_flags
rdonly-string_to_flags [] = unfold has_flag in refl
rdonly-string_to_flags ((k, v) ∷ s) =
    ground (arith, rdonly-add_option k (string_to_flags s), rdonly-string_to_flags s)
