-- ===== src/Tests/Tree.antt =====
-- A process in a small file tree: /etc/passwd, a link to it in /etc, and a link to the root.
use sysbox_fs.Prelude.{
  String, true, false, ◌||◌, Option, none, some, [], ◌==◌, string_eq, if◌then◌else◌,
}
use sysbox_fs.Process.Perm.{FileInfo, Creds}
use sysbox_fs.Process.Path.{Files, Lookup}

abbrev pub directory : FileInfo
directory = record { perm = 493; owner = 0; group = 0; is_dir = true; is_symlink = false }

abbrev pub plain : FileInfo
plain = record { perm = 420; owner = 0; group = 0; is_dir = false; is_symlink = false }

abbrev pub symlink : FileInfo
symlink = record { perm = 511; owner = 0; group = 0; is_dir = false; is_symlink = true }

abbrev pub stat_at : String → Option FileInfo
stat_at p =
    if p == "/proc/7/root" || p == "/proc/7/root/etc"
    then some directory
    else if p == "/proc/7/root/etc/passwd"
    then some plain
    else none

abbrev pub lstat_at : String → Option FileInfo
lstat_at p =
    if p == "/proc/7/root"
      || p == "/proc/7/root/etc/link"
      || p == "/proc/7/root/top"
      || p == "/proc/7/fd/3"
    then some symlink
    else stat_at p

abbrev pub link_at : String → Option String
link_at p =
    if p == "/proc/7/root/top"
    then some "/"
    else if p == "/proc/7/root/etc/link"
    then some "passwd"
    else if p == "/proc/7/fd/3"
    then some "/etc/passwd"
    else none

abbrev pub files : Files
files = record { lstat = lstat_at; stat = stat_at; readlink = link_at }

abbrev pub creds : Creds
creds = record {
  uid = 1000;
  gid = 1000;
  sgid = [];
  cap_dac_override = false;
  cap_dac_read_search = false;
}

abbrev pub process : Lookup
process = record {
  creds = creds;
  procroot = "/proc/7/root";
  proccwd = "/proc/7/cwd";
  mode = 0;
  follow_symlink = true;
}
