-- ===== src/Lib.antt =====
-- sysbox-fs: the emulation of /proc and /sys for system containers.
--
-- sysbox-runc announces, registers and removes containers by messages (ipc/apis.go). The state
-- service (state/containerDB.go) keeps the containers and drives one fuse server for each
-- (fuse/service.go). The seccomp monitor (seccomp/tracer.go) receives the trapped system calls of
-- the processes in a container; for mounts and unmounts the handlers (seccomp/mount.go,
-- seccomp/umount.go) consult the mountinfo of the process and that of the container's init process
-- (mount/infoParser.go), and answer with an error, let the kernel go on, or have an nsenter agent
-- carry out a list of mounts. The targets of the calls are resolved with the rights of the process
-- (process/process.go). The handlers of the emulated files (handler/handlerDB.go,
-- handler/implementations) keep what is written in the container's data store (state/container.go),
-- pass it to the host under a rule, or pass it through to the container's own files by an nsenter
-- agent. The kernel's requests on the emulated files reach them by the methods of the fuse nodes
-- (fuse/dir.go, fuse/file.go); an agent is sysbox-fs itself, started again in the namespaces of a
-- process, and serves one request (nsenter/event.go).
--
-- Files:
--   Prelude             lists on native numbers, association lists for Go's maps, integers, results.
--   Text                strings.Split, path.Join and the like, on ASCII; TextTests runs them.
--   Mount/Flags         mount/helper.go.
--   Mount/Info, Parse   the mountinfo parser: objects, maps, lookups; parseData, parseComponents.
--   Mount/Query         its questions: base mounts, submounts, stacked, bind and self mounts.
--   Mount/Clone         its inodes, IsRootMount and IsCloneMount.
--   Seccomp/Context     the responses of seccomp/tracer.go, the calling process, the nsenter agent.
--   Seccomp/Umount      seccomp/umount.go: umountAllowed by its scenarios, process.
--   Seccomp/Remount     remountAllowed of seccomp/mount.go.
--   Seccomp/Mount       the rest of seccomp/mount.go.
--   Seccomp/Tracer      processMount, processUmount and the end of processSyscall of seccomp/tracer.go.
--   Seccomp/Tracer/Dispatch  processSyscall there and the functions it calls.
--   Seccomp/Memory      the reads of seccomp/memParserIOvec.go.
--   Seccomp/Sessions    seccompSessionAdd and seccompSessionDelete, with the connection handlers as steps.
--   Seccomp/Chown       seccomp/chown.go.
--   Seccomp/Xattr       seccomp/xattr.go.
--   Seccomp/Openat2     seccomp/openat2.go.
--   Nsenter/Mounts      the mount and umount requests of nsenter/event.go.
--   Nsenter/Personality AdjustPersonality of process/process.go.
--   Seccomp/PidTracker  seccomp/pidTracker.go: concurrent callers as a step relation.
--   Process/Perm        checkPerm of process/process.go.
--   Process/Path        pathAccess, with the links it follows and the way it goes.
--   Process/ProcSelf    replaceProcSelfWithProcPid and ResolveProcSelf.
--   Process/RootIds     UsernsRootUidGid.
--   Seccomp/Tracer/Targets  PathAccess as the syscall handlers use it.
--   Handler/Ints        the numbers in files: the comparisons of handler/implementations/utils.go.
--   Handler/Store       the rest of utils.go: readFs, writeFs, readCntrData, writeCntrData.
--   Handler/PassThrough handler/implementations/passThrough.go.
--   Handler/Kernel      handler/implementations/procSysKernel.go.
--   Handler/Sysctl      procSysFs.go, procSysNetCore.go, procSysNetUnix.go and procSysVm.go there.
--   Handler/Sysctl/Net  procSysNetIpv4Vs.go and procSysNetNetfilter.go there.
--   Handler/Db          handler/handlerDB.go.
--   Fuse/Node           File, Dir and the server of a container in the folder fuse.
--   Fuse/File, Dir      the methods of fuse/file.go and fuse/dir.go.
--   Fuse/Run            a series of requests on one server.
--   Nsenter/Message     the messages of domain/nsenter.go, IOerror of fuse/error.go.
--   Nsenter/Remounts    the mounts of procfs and sysfs in nsenter/utils.go.
--   Nsenter/Agent       the requests an agent serves, of nsenter/event.go.
--   Nsenter/Exchange    processResponse there, with the request served by an agent.
--   Nsenter/Send        SendRequest and TerminateRequest there: processes, reaper and pipe.
--   State/Data          Data and SetData of state/container.go.
--   State/Container     the container object and its update.
--   State/Registry      state/containerDB.go, fuse/service.go and ipc/apis.go.
--   Tests               a small container on which the theorems are run.
-- The children of these files hold the proofs, named for what they prove.
--
-- State is passed explicitly. A mount entry is an object of the parser's heap, since inodes are
-- stored in it later; the maps hold references, and so do the tables of the registry. A Go error of
-- a handler is `failed`, a nil dereference is `none`, `crashed` or `panics`. A Go map that is ranged
-- over is read in the order of its association list, any order being a possible list.
--
-- What stands outside of the repository is a parameter: the system in the namespaces of a container,
-- on which an agent works, the inodes it reads, the JSON library, the attributes of processes, the
-- memory of processes and what Go can allocate, the file system that paths are resolved in, the
-- nodes of host files and the other agents that write to them, the radix tree of handlers, whether a
-- fuse server starts and stops. A part takes another part as a parameter too: the system-call
-- handlers take the agent, the fuse nodes the handlers. A message of sysbox-runc is one step, as the
-- lock of the service makes it (with the lookup of the container that is unregistered, which the
-- program makes before it takes the lock); the locks themselves are not modelled. A byte slice of
-- the data store is a value: Go lets a reader's slice share memory with the store.
--
-- The loops over the ancestors of a mount take a bound, the field `depth` of the context. Mountinfo
-- is a tree whose root names a parent that is not listed: a loop makes one round for each ancestor,
-- so that the height of the tree is enough. The loops over links recurse on the number of links that
-- are left, 40 at first, and writeFs on its five rounds.
--
-- Offsets of reads and writes through the handlers are not negative; data that is parsed is ASCII.
--
-- Not modelled: the reading of mountinfo files and of /proc/<pid>/mem, logging, the start, the loop
-- and the end of a fuse server, the sockets and credentials of nsenter, the reaper's goroutine, the
-- handlers other than those named, the reading of a process' status and capabilities, the command.
pub mod Prelude
pub mod Text
pub mod TextTests
pub mod Tests
pub mod Mount
pub mod Seccomp
pub mod State
pub mod Process
pub mod Fuse
pub mod Handler
pub mod Nsenter
