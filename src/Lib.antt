-- ===== src/Lib.antt =====
-- Verification of the Rust programs of this repository: authfs, a file system that serves files of an
-- untrusted host and checks or keeps their fs-verity digests, fd_server, the host's service for it,
-- zipfuse, a read-only file system over a zip archive, compos, which runs a task in a VM on files of the
-- caller, virtmanager, which starts VMs, and vm, the command for it.
--
-- Common             Outcome (ok, err, panic, and stuck for a loop out of fuel), lists and Boolean tests
--                    over the native numbers.
-- Text               What the programs use of Rust's text: printed numbers, parse and split.
-- Chunks             authfs/src/common.rs: divide_roundup and ChunkedSizeIter.
-- Crypto             authfs/src/crypto.rs: Sha256Hasher over the calls of the crypto library.
-- File               authfs/src/file.rs: the traits ReadByChunk and RandomWrite, write_all_at.
-- Fsverity           authfs/src/fsverity/common.rs and sys.rs: the digest and the height of the tree.
-- Fsverity/Merkle    authfs/src/fsverity/builder.rs: MerkleLeaves.
-- Fsverity/Editor    authfs/src/fsverity/editor.rs: VerifiedFileEditor.
-- Fsverity/Verifier  authfs/src/fsverity/verifier.rs and authfs/src/auth.rs: VerifiedFileReader; Binding
--                    is about what passes the checks, Honest, Complete and Built about what must pass.
-- AuthFs             authfs/src/fusefs.rs: the FUSE handlers over the pool of files.
-- AuthFs/Update      authfs/src/fusefs.rs: the handlers that change a file.
-- AuthFs/Options     authfs/src/main.rs: the options that name the files.
-- AuthFs/Startup     authfs/src/main.rs: prepare_file_pool and the files that it opens.
-- AuthFs/Sessions    authfs/src/fusefs.rs: requests that change files, one after the other.
-- FdServer           authfs/fd_server/src/main.rs: the requests of the service; FdServer/Args: its
--                    arguments; FdServer/Kernel: authfs/fd_server/src/fsverity.rs.
-- Remote             authfs/src/file/local_file.rs and remote_file.rs: the readers and the writer;
--                    Served, Tree and Verified are about their reads from FdServer.
-- Compos             compos/src: Service is compsvc.rs, Worker compsvc_worker.rs and Exec pvm_exec.rs.
-- Handles            Maps from handles and inodes to their state.
-- Zip/Inode          zipfuse/src/inode.rs: InodeTable and its construction from an archive.
-- Zip/FileSystem     zipfuse/src/main.rs: the FUSE handlers over the table.
-- VirtManager        virtmanager/src/aidl.rs: the state of the service that starts VMs; Held: the
--                    references that it holds.
-- VirtManager/Config virtmanager/src/config.rs and crosvm.rs: the configuration and the command line of
--                    a VM.
-- VirtManager/Life   virtmanager/src/crosvm.rs and aidl.rs: the monitor of a VM and its callbacks.
-- Vm                 vm/src/run.rs, sync.rs and main.rs: the command that runs and stops VMs.
--
-- The editor and the verifier use the leaves, the digest and the file traits. A file is a value of a
-- type that a call returns anew, and what its reads return is not restricted: an untrusted host.
-- The editor's state is the pair of that value and the leaves, and each handler is a function of it.
-- AuthFs calls the verifier for a read of a verified file and the editor for a read, a write or a new
-- size of a writable one; Zip/FileSystem reads the table that Zip/Inode builds. Compos/Exec calls the
-- service of Compos/Service, which runs Compos/Worker by a command line, which runs authfs by another;
-- Compos/Exec runs FdServer, which Remote reads from. The threads of Vm and VirtManager/Life are step
-- relations, in which a step is what a thread does under a lock or with one store.
--
-- Integers are natural numbers, with the wrap of u64 at 2 ^ 64 written out where the code adds or
-- multiplies; usize is as wide. Integer overflow wraps and debug assertions are left out, as in a
-- release build; those of the root hash are a definition of their own (root_debug_asserts). Error
-- messages, logs and hints to the caller are left out; an error keeps its kind or its errno.
--
-- Fuel: the chunk iterator has one round more than there are bytes, since each item has a byte;
-- write_all_at has one round more than there are bytes, which is enough when each write takes a byte
-- at least and no more than it is given; `chunks` has as many rounds as elements; the wait for authfs
-- has 202 polls, more than fit in its ten seconds. The count of leading zeros walks 64 bits.
--
-- Parameters: the calls of the crypto library (Sha256Ffi, with IsSha256 as their documented behaviour),
-- the backing files (ReadByChunk, RandomWrite), the files and ioctls of the host (HostFile,
-- LocalFile), the calls of the remote service (VirtFdService), the writer of a reply (Write), the
-- signature check (Authenticator), the zip archive (ZipArchive), minijail (Minijail), what clap reads
-- of a command line (ArgMatches, ReadsOptions), statfs and the clock (Polls), the service's calls
-- in vm (Calls), and the start of a VM. A theorem
-- about security gives a SHA-256 collision as its other case.
--
-- Not modelled: the mounting of the file systems, the registration of the binder services and the log,
-- which are glue around the system, and the tools that are not written in Rust.
pub mod Common
pub mod Text
pub mod Chunks
pub mod Crypto
pub mod File
pub mod Handles
pub mod FdServer
pub mod Compos
pub mod Remote
pub mod Fsverity
pub mod AuthFs
pub mod Zip
pub mod VirtManager
pub mod Vm
