-- ===== src/Nsenter/Personality.antt =====
-- A process that takes on the attributes of another (AdjustPersonality of process/process.go). The
-- system calls are a parameter: which of them fail, and with which error.
pub mod Laws
use sysbox_fs.Prelude.{
  ℕ, String, Bool, true, false, not, Option, none, some, ◌==◌, nat_eq, string_eq, Result, ok, err,
  if◌then◌else◌,
}

-- The working directory, the root, the effective IDs, the effective capabilities.
pub record Personality : Type 0 where
  pub cwd : String
  pub root : String
  pub gid : ℕ
  pub uid : ℕ
  pub caps : ℕ × ℕ

-- `none` is success. Setresuid changes the capabilities.
pub record Calls : Type 0 where
  pub chdir : Personality → String → Option ℕ
  pub chroot : Personality → String → Option ℕ
  pub setresgid : Personality → ℕ → Option ℕ
  pub setresuid : Personality → ℕ → Option ℕ
  pub caps_after_setresuid : Personality → ℕ → ℕ × ℕ
  pub apply_caps : Personality → ℕ × ℕ → Option ℕ

-- A call that is made if it is needed; an error ends the function, with what was changed before.
called : Option ℕ → Personality → Personality → Result (ℕ × Personality) Personality
called none before after = ok after
called (some e) before after = err (e, before)

then_call :
    Result (ℕ × Personality) Personality
    → (Personality → Result (ℕ × Personality) Personality)
    → Result (ℕ × Personality) Personality
then_call (err e) next = err e
then_call (ok p) next = next p

module _ (calls : Calls) where
  to_cwd : String → Personality → Result (ℕ × Personality) Personality
  unfolding called
  to_cwd cwd p =
      if cwd == p.cwd then ok p else called (calls.chdir p cwd) p (record p { cwd = cwd })

  to_root : String → Personality → Result (ℕ × Personality) Personality
  unfolding called
  to_root root p =
      if root == p.root then ok p else called (calls.chroot p root) p (record p { root = root })

  to_gid : ℕ → Personality → Result (ℕ × Personality) Personality
  unfolding called
  to_gid gid p =
      if gid == p.gid then ok p else called (calls.setresgid p gid) p (record p { gid = gid })

  to_uid : ℕ → Personality → Result (ℕ × Personality) Personality
  unfolding called
  to_uid uid p =
      if uid == p.uid
      then ok p
      else called (calls.setresuid p uid) p
          (record p { uid = uid; caps = calls.caps_after_setresuid p uid })

  to_caps : ℕ × ℕ → Personality → Result (ℕ × Personality) Personality
  unfolding called
  to_caps caps p = called (calls.apply_caps p caps) p (record p { caps = caps })

  unfoldable pub adjust_personality :
      Personality → Personality → Result (ℕ × Personality) Personality
  unfolding to_cwd to_root to_gid to_uid to_caps then_call
  adjust_personality target p = then_call (to_cwd target.cwd p) (λ p1.
      then_call (to_root target.root p1) (λ p2.
        then_call (to_gid target.gid p2)
          (λ p3. then_call (to_uid target.uid p3) (to_caps target.caps))))
