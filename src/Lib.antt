-- ===== src/Lib.antt =====
-- Verification of NFSRODS, an NFS version 3 server in user space.
--
-- The server turns a file handle into a path, checks that the path still leads to the object of the
-- handle, acts on the file with the ids of the request, and answers with the object's attributes. The
-- parts that do this are modelled here, each as functions on a record of the C file's static
-- variables:
--
--   Prelude   numbers, lists, options, bits and strings that the parts share
--   Errno, Status, Error   src/error.c: the translation of errno to the codes of src/nfs.h
--   Backend   src/backend_unix.h: `FileSys` holds the answers of lstat and of a directory's listing
--   Fh        src/fh.c: Handles has the structure, its length and how it is composed and extended;
--             Resolve has fh_rec and fh_decomp_raw, the search that the stored hashes guide
--   Locate    src/locate.c: the search of a whole device
--   FhCache   src/fh_cache.c: Table has the array with its replacement and lookup, Decomp has
--             fh_decomp and fh_comp, which put the cache, the two searches and the stat cache
--             together
--   FdCache   src/fd_cache.c: Table has the array of open descriptors with fd_cache_del and
--             fd_cache_add, and regenerate_write_verifier of src/daemon.c, Calls has what the other
--             files call
--   User      src/user.c: Ids has the squashing and the tests on the requesting user, Switch has the
--             changes of the process's ids
--   Attr      src/attr.c: Get has what is reported, Put has what is set, Asked describes the changes
--             asked for, apart from the code, Mode has permission and fileNameLastIndex
--   Readdir   src/readdir.c: Page has read_dir, Hash has directory_hash
--   Mount     src/mount.c: Table has the list of mounts and the calls that end them, Mnt the procedure
--             that makes one; Named says what its argument names, Guard who is given a handle
--   Password  src/password.c: the arguments of mount commands, and digests as text
--   Exports   src/Config/exports.y: Options and Names have the options of a host and the paths, Parse
--             what the grammar does with the file, Lookup the options that a request is given; Hosts
--             describes the host that an address belongs to, apart from the code
--   Nfs       src/nfs.c: Paths has the names and the directories of users, Prep the macro PREP and
--             what the procedures share, and the other files the procedures, of which each is a
--             function from the server's state to the reply, the state and the calls it makes
--   Xdr       src/xdr.c: Codec has how its functions are put together, and the RPC library as an
--             interface; the other files have the types of the protocol, one function for each of the
--             source's, which writes and reads
--   Tests     runs at concrete inputs
--
-- A function of the source keeps its name; a static variable is a field under its name without the
-- file's prefix. -1, NULL and a union's other arm are `none`. A change of state is returned beside the
-- result. What the system answers (lstat, readdir, open, fsync, close, time) is a field of the
-- parameter that stands for it, and does not change during one operation; whether seteuid, setegid
-- and setgroups succeed depends on the process that calls them, and User/Laws has what they document.
-- What getpid() ^ rand() gives is a field too, for each slot that is deleted.
--
-- Numbers are the native natural numbers. The uint32 device of a handle, the unsigned time of the
-- file handle cache and the 32-bit attributes are cut by `% 2 ^ 32`; the hash of an inode is cut
-- to 8 bits. The counters fd_cache_readers and fd_cache_writers are decremented on natural
-- numbers.
--
-- Loops over an array or a listing are structural recursion. fh_rec recurses on the hashes that are
-- left, locate_pfx on fuel; NFS_MAXPATHLEN units are enough, since each level makes the path longer
-- by at least one byte and a path of NFS_MAXPATHLEN bytes is not visited. The client of Readdir/Walk
-- reads on fuel too, one call for each name and one more.
--
-- xdr_entry3 and the other functions that code a chain of nodes recurse on a depth, which stands for
-- the C stack; a depth of the length of the chain is enough.
--
-- PREP puts the parts together: fh_decomp of FhCache, exports_options of Exports and switch_user of
-- User. A procedure calls it first and goes on with the path. What it calls on the file system and on
-- the iRODS server is recorded in the order of the calls, with the answers as parameters; `fs_after`
-- is the file system after them. Where the source leaves a buffer unset, a parameter (`junk`) stands
-- for what it holds. A null pointer is `none`.
--
-- Not modelled: the random numbers and the use of MD5 in src/password.c, the start and
-- the signals of src/daemon.c, the scanner of the exports file, and, of the iRODS client, all but the
-- translation of paths. src/md5.c and src/utils/json.c are copies of other libraries;
-- src/Config/y.tab.c and src/Config/lex.yy.c are generated. Windows and cluster code is not compiled
-- in the configuration of src/config.h. In src/xdr.c the coding of 64-bit numbers by hand and
-- xdr_int32 are not compiled; the memory that decoding allocates is left out.
pub mod Prelude
pub mod Errno
pub mod Status
pub mod Error
pub mod Backend
pub mod Fh
pub mod Locate
pub mod FhCache
pub mod FdCache
pub mod User
pub mod Attr
pub mod Readdir
pub mod Mount
pub mod Password
pub mod Xdr
pub mod Exports
pub mod Nfs
mod Tests
