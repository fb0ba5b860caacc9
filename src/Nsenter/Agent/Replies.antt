-- ===== src/Nsenter/Agent/Replies.antt =====
-- The replies of the requests on files (nsenter/event.go), as the receiver takes them.
use sysbox_fs.Prelude.{ℕ, ◌≡◌, String, Option, none, some, List, Result, ok, err}
use sysbox_fs.Prelude.Bytes.{Bytes}
use sysbox_fs.Fuse.Node.{DomainFileInfo}
use sysbox_fs.Nsenter.Remounts.{
  GoError, other_error, Action, PayloadMounts, process_payload_mounts,
  replace_procfs_and_sysfs_paths,
}
use sysbox_fs.Nsenter.Message.{
  NsMsg, nil, file_info, file_infos, bytes, text, inodes_resp, getxattr_resp, listxattr_resp,
  io_error, dropped, taken_as, Wants,
}
use sysbox_fs.Nsenter.Agent.{
  Os, Outcome, replied, panicked, error_reply, ReadEnd, all_read, at_eof, read_error, mounted_then,
  lookup_reply, opened_reply, open_with, read_reply, read_opened, write_reply, write_opened,
  dir_reply, process_lookup_request, process_open_file_request, process_file_read_request,
  process_file_write_request, process_dir_read_request,
}

-- The replies that fit what the receiver takes them as.
pub data Fits : Outcome → Type 0 where
  of_error : (e : GoError) → Fits (replied NsMsg.error_response (io_error e))
  of_panic : Fits panicked
  of_open : Fits (replied NsMsg.open_file_response nil)
  of_write : Fits (replied NsMsg.write_file_response nil)
  of_dropped : (msg : NsMsg) (t : String) → taken_as msg ≡ dropped → Fits (replied msg (text t))
  of_lookup : (i : DomainFileInfo) → Fits (replied NsMsg.lookup_response (file_info i))
  of_read : (b : Bytes) → Fits (replied NsMsg.read_file_response (bytes b))
  of_dir : (is : List DomainFileInfo) → Fits (replied NsMsg.read_dir_response (file_infos is))
  of_inodes : (ns : List ℕ) → Fits (replied NsMsg.mount_inode_response (inodes_resp ns))
  of_getxattr : (v : Bytes) (n : ℕ) → Fits (replied NsMsg.getxattr_response (getxattr_resp v n))
  of_listxattr : (v : Bytes) (n : ℕ) → Fits (replied NsMsg.listxattr_response (listxattr_resp v n))

module _ {S : Type 0} (os : Os S) where
  mounted_then-Fits :
      (s : S) (body : PayloadMounts → Outcome × S)
      (mounts : Result GoError PayloadMounts × List Action)
      → ((pmi : PayloadMounts) → Fits (body pmi).0)
      → Fits (mounted_then os error_reply s body mounts).0
  unfolding mounted_then
  mounted_then-Fits s body (err e, actions) h = of_error e
  mounted_then-Fits s body (ok pmi, actions) h = h pmi

  lookup_reply-Fits : (r : Result GoError DomainFileInfo) → Fits (lookup_reply os r)
  unfolding lookup_reply
  lookup_reply-Fits (err e) = of_error e
  lookup_reply-Fits (ok info) = of_lookup info

  pub process_lookup_request-Fits :
      (entry : String) (w : Wants) (s : S) → Fits (process_lookup_request os entry w s).0
  unfolding process_lookup_request
  process_lookup_request-Fits entry w s =
      mounted_then-Fits s _ (process_payload_mounts w.sysfs w.procfs (os.replies s))
        (λ pmi. lookup_reply-Fits (os.lstat s (replace_procfs_and_sysfs_paths entry pmi)))

  opened_reply-Fits : (s : S) (r : Result GoError S) → Fits (opened_reply os s r).0
  unfolding opened_reply
  opened_reply-Fits s (err e) = of_error e
  opened_reply-Fits s (ok s') = of_open

  open_with-Fits :
      (path : String) (s : S) (flags mode : Option ℕ) → Fits (open_with os path s flags mode).0
  unfolding open_with
  open_with-Fits path s none mode = of_error other_error
  open_with-Fits path s (some fl) none = of_error other_error
  open_with-Fits path s (some fl) (some m) = opened_reply-Fits s (os.open_file s path fl m)

  pub process_open_file_request-Fits :
      (file flags mode : String) (w : Wants) (s : S)
      → Fits (process_open_file_request os file flags mode w s).0
  unfolding process_open_file_request
  process_open_file_request-Fits file flags mode w s =
      mounted_then-Fits s _ (process_payload_mounts w.sysfs w.procfs (os.replies s))
        (λ pmi. open_with-Fits _ s (os.atoi flags) (os.atoi mode))

  read_reply-Fits : (r : Bytes × ReadEnd) → Fits (read_reply os r)
  unfolding read_reply
  read_reply-Fits (b, read_error e) = of_error e
  read_reply-Fits (b, all_read) = of_read b
  read_reply-Fits (b, at_eof) = of_read b

  read_opened-Fits :
      (path : String) (offset len : ℕ) (s : S) (r : Result GoError S)
      → Fits (read_opened os path offset len s r).0
  unfolding read_opened
  read_opened-Fits path offset len s (err e) = of_error e
  read_opened-Fits path offset len s (ok s') = read_reply-Fits (os.read_at s' path len offset)

  pub process_file_read_request-Fits :
      (file : String) (offset len : ℕ) (w : Wants) (s : S)
      → Fits (process_file_read_request os file offset len w s).0
  unfolding process_file_read_request
  process_file_read_request-Fits file offset len w s =
      mounted_then-Fits s _ (process_payload_mounts w.sysfs w.procfs (os.replies s)) (λ pmi.
        read_opened-Fits (replace_procfs_and_sysfs_paths file pmi) offset len s
          (os.open_file s _ 0 0))

  write_reply-Fits : (r : Option GoError × S) → Fits (write_reply os r).0
  unfolding write_reply
  write_reply-Fits (some e, s) = of_error e
  write_reply-Fits (none, s) = of_write

  write_opened-Fits :
      (path : String) (offset : ℕ) (content : Bytes) (s : S) (r : Result GoError S)
      → Fits (write_opened os path offset content s r).0
  unfolding write_opened
  write_opened-Fits path offset content s (err e) = of_error e
  write_opened-Fits path offset content s (ok s') =
      write_reply-Fits (os.write_at s' path content offset)

  pub process_file_write_request-Fits :
      (file : String) (offset : ℕ) (content : Bytes) (w : Wants) (s : S)
      → Fits (process_file_write_request os file offset content w s).0
  unfolding process_file_write_request
  process_file_write_request-Fits file offset content w s =
      mounted_then-Fits s _ (process_payload_mounts w.sysfs w.procfs (os.replies s)) (λ pmi.
        write_opened-Fits (replace_procfs_and_sysfs_paths file pmi) offset content s
          (os.open_file s _ 1 0))

  dir_reply-Fits : (r : Result GoError (List DomainFileInfo)) → Fits (dir_reply os r)
  unfolding dir_reply
  dir_reply-Fits (err e) = of_error e
  dir_reply-Fits (ok infos) = of_dir infos

  pub process_dir_read_request-Fits :
      (dir : String) (w : Wants) (s : S) → Fits (process_dir_read_request os dir w s).0
  unfolding process_dir_read_request
  process_dir_read_request-Fits dir w s =
      mounted_then-Fits s _ (process_payload_mounts w.sysfs w.procfs (os.replies s))
        (λ pmi. dir_reply-Fits (os.read_dir s (replace_procfs_and_sysfs_paths dir pmi)))
