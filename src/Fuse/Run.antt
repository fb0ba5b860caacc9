-- ===== src/Fuse/Run.antt =====
-- Requests of the kernel to the server of a container, one after the other (the methods that
-- bazil.org/fuse calls on the nodes of fuse/dir.go and fuse/file.go).
pub mod Blind
pub mod Laws
pub mod NoContainer
use sysbox_fs.Prelude.{ℕ, String, Bool, true, false, List, [], ◌∷◌, map}
use sysbox_fs.Prelude.Bytes.{Bytes}
use sysbox_fs.Fuse.Node.{Attr, FuseNode, FuseCaller, Services, FuseError}
use sysbox_fs.Fuse.File.{
  FsState, FsAnswer, answer, refusal, panic, file_attr, file_open, file_read, file_write,
  file_readlink, file_setattr, file_forget,
}
use sysbox_fs.Fuse.Dir.{Dirent, dir_lookup, dir_open, dir_create, dir_read_all, dir_mkdir}

-- A request, with the node that it is made on and the fields that it has.
pub data FuseRequest : Type 0 where
  lookup_in : FuseNode → String → FuseCaller → FuseRequest
  create_in : FuseNode → String → FuseCaller → ℕ → ℕ → FuseRequest
  read_dir : FuseNode → FuseCaller → ℕ → FuseRequest
  mkdir_in : FuseNode → String → FuseRequest
  attr_of : FuseNode → FuseRequest
  open_of : FuseNode → FuseCaller → ℕ → FuseRequest
  open_dir_of : FuseNode → FuseCaller → ℕ → FuseRequest
  read_from : FuseNode → FuseCaller → ℕ → ℕ → FuseRequest
  write_to : FuseNode → FuseCaller → ℕ → Bytes → FuseRequest
  readlink_of : FuseNode → FuseCaller → FuseRequest
  setattr_of : FuseNode → Bool → FuseRequest
  release_of : FuseNode → FuseRequest
  forget_of : FuseNode → FuseRequest

pub data FuseReply : Type 0 where
  node_reply : FuseNode → FuseReply
  created_reply : FuseNode × ℕ → FuseReply
  dirents_reply : List Dirent → FuseReply
  attr_reply : Attr → FuseReply
  flags_reply : ℕ → FuseReply
  bytes_reply : Bytes → FuseReply
  size_reply : ℕ → FuseReply
  target_reply : String → FuseReply
  done_reply : FuseReply

abbrev pub answer_map : {A B : Type 0} → (A → B) → FsAnswer A → FsAnswer B
answer_map f (answer a) = answer (f a)
answer_map f (refusal e) = refusal e
answer_map f panic = panic

abbrev pub step_map : {A B C : Type 0} → (A → B) → FsAnswer A × C → FsAnswer B × C
step_map f (r, x) = (answer_map f r, x)

module _ {W : Type 0} (services : Services W) where
  unfoldable pub serve : FuseRequest → FsState W → FsAnswer FuseReply × FsState W
  serve (lookup_in d name caller) x = step_map node_reply (dir_lookup services d name caller x)
  serve (create_in d name caller flags mode) x =
      step_map created_reply (dir_create services d name caller flags mode 0 x)
  serve (read_dir d caller flags) x =
      (answer_map dirents_reply (dir_read_all services d caller flags x), x)
  serve (mkdir_in d name) x = (answer_map node_reply (dir_mkdir services d name x), x)
  serve (attr_of f) x = step_map attr_reply (file_attr services f x)
  serve (open_of f caller flags) x = step_map flags_reply (file_open services f caller flags 0 x)
  serve (open_dir_of d caller flags) x = step_map flags_reply (dir_open services d caller flags 0 x)
  serve (read_from f caller offset size) x =
      step_map bytes_reply (file_read services f caller offset size x)
  serve (write_to f caller offset content) x =
      step_map size_reply (file_write services f caller offset content x)
  serve (readlink_of f caller) x = (answer_map target_reply (file_readlink services f caller x), x)
  serve (setattr_of f sets_size) x =
      (answer_map (λ b. done_reply) (file_setattr services sets_size x), x)
  serve (release_of f) x = (answer done_reply, x)
  serve (forget_of f) x = (answer done_reply, file_forget services f x)

  unfoldable pub serve_all : List FuseRequest → FsState W → List (FsAnswer FuseReply) × FsState W
  unfolding serve
  serve_all [] x = ([], x)
  serve_all (r ∷ rs) x =
      let (reply, x') = serve r x in let (replies, x'') = serve_all rs x' in (reply ∷ replies, x'')
