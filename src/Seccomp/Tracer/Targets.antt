-- ===== src/Seccomp/Tracer/Targets.antt =====
-- The targets of mount and umount2, as package process resolves them (PathAccess of
-- process/process.go, called by processMount and processUmount of seccomp/tracer.go).
use sysbox_fs.Prelude.{
  ℕ, String, ◌≡◌, refl, Bool, true, false, Option, none, some, string_eq, Result, ok, err, arith,
}
use sysbox_fs.Text.{concat, is_abs, join}
use sysbox_fs.Process.Path.{Files, Lookup, path_access}
use sysbox_fs.Process.Path.Laws.{path_access-slash_end}
use sysbox_fs.Process.ProcSelf.{resolve_proc_self, is_proc_self}
use sysbox_fs.Seccomp.Context.{SyscallCtx, MountPayload, einval}
use sysbox_fs.Seccomp.Tracer.{
  ProcessOps, ParserState, absolute_target, call_umount, umount_at, process_umount2,
}

-- PathAccess, of a process that is initialized, with a caller's mode and choice on links.
unfoldable pub process_path_access : Files → Lookup → String → String → Result (Option ℕ) String
process_path_access f l pid path = elim (resolve_proc_self f pid path) [
  | none ↦ err (some einval)
  | some p ↦ elim (path_access f l p) [ err e ↦ err (some e) | ok r ↦ ok r ]
]

-- The process of a syscall, on a file system.
unfoldable pub process_ops : Files → Lookup → String → Bool → ProcessOps
unfolding process_path_access
process_ops f l pid is_sys_admin = record {
  is_sys_admin = is_sys_admin;
  resolve_proc_self = resolve_proc_self f pid;
  path_access = process_path_access f l pid;
}

not_self-resolved :
    (f : Files) (pid path : String)
    → is_proc_self path ≡ false
    → resolve_proc_self f pid path ≡ some path
unfolding resolve_proc_self
not_self-resolved f pid path h = ground arith

slash_end-empty :
    (f : Files) (l : Lookup) (pid p r : String)
    → is_proc_self (concat p "/") ≡ false
    → process_path_access f l pid (concat p "/") ≡ ok r
    → r ≡ ""
unfolding process_path_access
slash_end-empty f l pid p r plain h =
    ground (arith, not_self-resolved f pid (concat p "/") plain, path_access-slash_end f l p r)

-- An umount2 of a privileged process whose target ends in a slash, does not go through /proc/self and
-- resolves, is answered as an umount2 of the process' working directory, whatever path stands before
-- the slash.
pub umount2-slash_end :
    (ctx : SyscallCtx) (f : Files) (l : Lookup) (pid p r : String) (st : ParserState)
    (request : MountPayload)
    → request.target ≡ concat p "/"
    → is_proc_self (concat p "/") ≡ false
    → process_path_access f l pid (concat p "/") ≡ ok r
    → process_umount2 ctx (process_ops f l pid true) st (some request)
      ≡ call_umount ctx st (record request { target = join ctx.cwd "" })
unfolding process_umount2 process_ops umount_at absolute_target is_abs
umount2-slash_end ctx f l pid p r st request at plain h =
    rw (at, not_self-resolved f pid (concat p "/") plain, h, slash_end-empty f l pid p r plain h)
      refl
