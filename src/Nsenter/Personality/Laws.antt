-- ===== src/Nsenter/Personality/Laws.antt =====
-- What a process is like after it has taken on the attributes of another.
use sysbox_fs.Prelude.{◌≡◌, nat_eq, string_eq, ok, arith}
use sysbox_fs.Nsenter.Personality.{
  Personality, Calls, adjust_personality, called, then_call, to_cwd, to_root, to_gid, to_uid,
  to_caps,
}

module _ (calls : Calls) where
  -- A process that takes on the attributes of another with success has its working directory, root,
  -- effective IDs and capabilities, whatever it had before.
  pub adjust_personality-target :
      (target p q : Personality) → adjust_personality calls target p ≡ ok q → q ≡ target
  unfolding adjust_personality then_call to_cwd to_root to_gid to_uid to_caps called
  adjust_personality-target target p q h =
      ground (arith, string_eq.equal_iff target.cwd p.cwd, string_eq.equal_iff target.root p.root)
