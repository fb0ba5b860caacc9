-- ===== src/Nsenter/Exchange/Files.antt =====
-- Reads and writes of the handlers through the agent, against the same calls made directly.
use sysbox_fs.Prelude.{ℕ, ◌≡◌, refl, String, Option, none, some, Result, ok, err, arith}
use sysbox_fs.Prelude.Bytes.{Bytes}
use sysbox_fs.Handler.PassThrough.{FileEvent}
use sysbox_fs.Nsenter.Remounts.{GoError, process_payload_mounts, replace_procfs_and_sysfs_paths}
use sysbox_fs.Nsenter.Message.{
  read_file_payload, write_file_payload, code_of, Codec, eio, IsJson, taken_as,
}
use sysbox_fs.Nsenter.Agent.{
  Os, ReadEnd, all_read, at_eof, read_error, process_file_read_request, process_file_write_request,
}
use sysbox_fs.Nsenter.Agent.Dispatch.{serve_payload}
use sysbox_fs.Nsenter.Exchange.{agent_read, agent_write, wants_of}
use sysbox_fs.Nsenter.Exchange.Laws.{exchange-delivered, request_for}

-- The number that a handler sees of an error.
abbrev pub errno_or_eio : GoError → ℕ
errno_or_eio e = elim (code_of e) [ none ↦ eio | some c ↦ c ]

abbrev pub numbered : {A : Type 0} → Result GoError A → Result ℕ A
numbered (ok a) = ok a
numbered (err e) = err (errno_or_eio e)

abbrev pub read_result : Bytes × ReadEnd → Result GoError Bytes
read_result (b, all_read) = ok b
read_result (b, at_eof) = ok b
read_result (b, read_error e) = err e

abbrev pub write_result : {S : Type 0} → Option GoError × S → Result GoError S
write_result (none, s) = ok s
write_result (some e, s) = err e

module _ {S : Type 0} (os : Os S) where
  abbrev pub read_opened_file : String → ℕ → ℕ → Result GoError S → Result GoError Bytes
  read_opened_file path offset size (err e) = err e
  read_opened_file path offset size (ok s) = read_result (os.read_at s path size offset)

  abbrev pub write_opened_file : String → ℕ → Bytes → Result GoError S → Result GoError S
  write_opened_file path offset content (err e) = err e
  write_opened_file path offset content (ok s) = write_result (os.write_at s path content offset)

  -- A file as the agent sees it, under its own mounts of procfs and sysfs.
  abbrev pub seen_at : FileEvent → S → Result GoError String
  seen_at e s =
      elim (process_payload_mounts e.remount.mount_sysfs e.remount.mount_procfs (os.replies s)).0 [
        | err f ↦ err f
        | ok pmi ↦ ok (replace_procfs_and_sysfs_paths e.path pmi)
      ]

  abbrev pub read_directly : FileEvent → ℕ → ℕ → S → Result GoError Bytes
  read_directly e offset size s = elim (seen_at e s) [
    | err f ↦ err f
    | ok path ↦ read_opened_file path offset size (os.open_file s path 0 0)
  ]

  abbrev pub write_directly : FileEvent → ℕ → Bytes → S → Result GoError S
  write_directly e offset content s = elim (seen_at e s) [
    | err f ↦ err f
    | ok path ↦ write_opened_file path offset content (os.open_file s path 1 0)
  ]

  module _ (codec : Codec) (json : IsJson codec) where
    -- With a JSON library that decodes each value into its own type as it was, a read of a handler
    -- through the agent gives the bytes that the file has where the agent sees it, under its own
    -- mounts of procfs and sysfs, or the number of the error of the mounts, of the opening or of the
    -- read.
    pub agent_read-directly :
        (s : S) (e : FileEvent) (offset size : ℕ)
        → agent_read os codec s e offset size ≡ numbered (read_directly e offset size s)
    unfolding agent_read request_for serve_payload process_file_read_request taken_as
    agent_read-directly s e offset size = ground (
      arith,
      exchange-delivered os codec json (read_file_payload e.path offset size (wants_of os codec e))
          s refl,
    )

    -- A write through the agent leaves the state that the write leaves where the agent sees the file, or
    -- ends with the number of the error.
    pub agent_write-directly :
        (s : S) (e : FileEvent) (offset : ℕ) (content : Bytes)
        → agent_write os codec s e offset content ≡ numbered (write_directly e offset content s)
    unfolding agent_write request_for serve_payload process_file_write_request taken_as
    agent_write-directly s e offset content = ground (
      arith,
      exchange-delivered os codec json
          (write_file_payload e.path offset content (wants_of os codec e)) s refl,
    )
