-- ===== src/Nfs/Laws.antt =====
-- src/nfs.c: what the procedures do on an export that may not be written, and the limits of READ.
use nfsrods.Prelude.{
  ℕ, ◌≤◌, ◌<◌, ◌≡◌, ◌≢◌, refl, Bool, false, not, ◌⊎◌, inl, inr, List, [], ◌∷◌, Option, none, some,
  length, arith, Bool-cases, Option-cases,
}
use nfsrods.Errno.{eexist}
use nfsrods.Backend.{FilePath, Stat}
use nfsrods.Status.{Nfsstat3, nfs3_ok, is_ok}
use nfsrods.Error.{join, join3}
use nfsrods.Fh.Handles.{NfsFh}
use nfsrods.Attr.Put.{Sattr3, atomic_attr}
use nfsrods.Attr.Get.{is_reg}
use nfsrods.FdCache.Table.{Cache, Sys, Kind, Result}
use nfsrods.FdCache.Calls.{fd_open}
use nfsrods.FdCache.Counts.{Counted}
use nfsrods.FdCache.Keep.{fd_open-Counted, fd_close-Counted}
use nfsrods.Exports.Lookup.{exports_rw}
use nfsrods.Nfs.Paths.{cat_name, real_path}
use nfsrods.Nfs.Prep.{
  Env, State, Call, Prepared, prepared, turned_down, ended, replied, prep, remove_obj,
  collection_path, site, path_or,
}
use nfsrods.Nfs.Change.{Diropargs3, DirRes, MkdirRes, remove, mkdir}
use nfsrods.Nfs.Create.{
  make, after_failure, exclusive, Creating, made, store_create_verifier, check_create_verifier,
}
use nfsrods.Nfs.Transfer.{
  Pulled, not_opened, pulled, no_bytes, read, ReadRes, read_count, maxdata, write, write_data,
  WriteRes, StableHow, is_unstable,
}

not_ok : (s : Nfsstat3) → s ≢ nfs3_ok → is_ok s ≡ false
not_ok s h = ground (arith, h)

join_refuses : (x y : Nfsstat3) → y ≢ nfs3_ok → is_ok (join x y) ≡ false
unfolding join
join_refuses x y h = elim (Bool-cases (is_ok x)) [
  | inl e ↦ ground (arith, e, not_ok y h)
  | inr e ↦ ground (arith, e)
]

-- REMOVE on an export that the caller may not write is refused and removes nothing locally; yet the
-- object is removed on the iRODS server, which is the one call that is made.
pub remove_denied :
    (env : Env) (errno : Call → Option ℕ) (junk : FilePath) (args : Diropargs3)
    (st now later : State) (path : FilePath) (r : DirRes) (calls : List Call)
    → prep env args.dir st ≡ prepared path now
    → exports_rw now.last ≢ nfs3_ok
    → remove env errno junk args st ≡ replied r later calls
    → (is_ok r.status ≡ false) × ((obj : FilePath) × (calls ≡ remove_obj obj ∷ []))
unfolding remove
remove_denied env errno junk args st now later path r calls p denied h =
    let refused =
      join_refuses (cat_name (some path) (some args.name)).0 (exports_rw now.last) denied in
    (
      ground (arith, p, refused, h),
      (
        collection_path env now (
            real_path (site env now) env.auth.uid
              (path_or junk (cat_name (some path) (some args.name)).1)),
        ground (arith, p, refused, h),
      ),
    )

join3_refuses : (x y z : Nfsstat3) → z ≢ nfs3_ok → is_ok (join3 x y z) ≡ false
unfolding join3
join3_refuses x y z h = elim (Bool-cases (is_ok x)) [
  | inl e ↦ ground (arith, e, join_refuses y z h)
  | inr e ↦ ground (arith, e)
]

-- MKDIR on an export that the caller may not write makes no directory, here or on the iRODS server,
-- and returns no handle.
pub mkdir_denied :
    (env : Env) (errno : Call → Option ℕ) (junk : FilePath) (args : Diropargs3) (new : Sattr3)
    (st now later : State) (path : FilePath) (r : MkdirRes) (calls : List Call)
    → prep env args.dir st ≡ prepared path now
    → exports_rw now.last ≢ nfs3_ok
    → mkdir env errno junk args new st ≡ replied r later calls
    → (is_ok r.status ≡ false) × ((calls ≡ []) × (r.obj ≡ none))
unfolding mkdir
mkdir_denied env errno junk args new st now later path r calls p denied h =
    let refused =
      join3_refuses (cat_name (some path) (some args.name)).0
        (atomic_attr now.settings now.process.euid now.process.egid new) (exports_rw now.last)
        denied in
    (ground (arith, p, refused, h), (ground (arith, p, refused, h), ground (arith, p, refused, h)))

-- WRITE on an export that the caller may not write touches no file, no object and no descriptor.
pub write_denied :
    (env : Env) (sys : Sys) (pwrite : ℕ → Option ℕ) (errno : ℕ) (file : NfsFh) (offset : ℕ)
    (how : StableHow) (contents : List ℕ) (st now later : State) (path : FilePath)
    (fds kept : Cache) (r : WriteRes) (calls : List Call)
    → prep env file st ≡ prepared path now
    → exports_rw now.last ≢ nfs3_ok
    → write env sys pwrite errno file offset how contents st fds ≡ (replied r later calls, kept)
    → (is_ok r.status ≡ false) × ((calls ≡ []) × (kept ≡ fds))
unfolding write
write_denied env sys pwrite errno file offset how contents st now later path fds kept r calls p
      denied h =
    let refused = join_refuses (is_reg now.stat_cache) (exports_rw now.last) denied in
    (ground (arith, p, refused, h), (ground (arith, p, refused, h), ground (arith, p, refused, h)))

Prepared-cases :
    (p : Prepared)
    → ((s : Nfsstat3) × (now : State) × (p ≡ turned_down s now))
      ⊎ ((p ≡ ended) ⊎ ((path : FilePath) × (now : State) × (p ≡ prepared path now)))
Prepared-cases (turned_down s now) = inl (s, now, refl)
Prepared-cases ended = inr (inl refl)
Prepared-cases (prepared path now) = inr (inr (path, now, refl))

read_count_small :
    (stream : Bool) (count : ℕ)
    → (read_count stream count ≤ count) × (read_count stream count ≤ maxdata stream)
unfolding read_count
read_count_small stream count = ground arith

Pulled-cases :
    (p : Pulled)
    → (p ≡ not_opened) ⊎ (((got : List ℕ) × (p ≡ pulled got)) ⊎ ((n : ℕ) × (p ≡ no_bytes n)))
Pulled-cases not_opened = inl refl
Pulled-cases (pulled got) = inr (inl (got, refl))
Pulled-cases (no_bytes n) = inr (inr (n, refl))

-- A reply of READ has as many bytes as it says, and no more than were asked for and than fit in one
-- reply, if the server of the objects gives no more than it is asked for.
pub read_fits :
    (env : Env) (read_object : FilePath → ℕ → ℕ → Pulled) (errno unset : ℕ) (stream : Bool)
    (file : NfsFh) (offset count : ℕ) (st later : State) (r : ReadRes) (calls : List Call)
    → ((p : FilePath) (o n : ℕ) (got : List ℕ) → read_object p o n ≡ pulled got → length got ≤ n)
    → read env read_object errno unset stream file offset count st ≡ replied r later calls
    → (r.count ≡ length r.contents) × ((r.count ≤ count) × (r.count ≤ maxdata stream))
unfolding read
read_fits env read_object errno unset stream file offset count st later r calls bound h =
    elim (Prepared-cases (prep env file st)) [
      | inl (s, now, e) ↦ ground (arith, h, e)
      | inr (inl e) ↦ absurd (ground (arith, h, e))
      | inr (inr (path, now, e)) ↦ elim (Bool-cases (is_ok (is_reg now.stat_cache))) [
        | inr f ↦ ground (arith, h, e, f)
        | inl f ↦
            let object = collection_path env now path in
            let asked = read_count stream count in
            elim (Pulled-cases (read_object object offset asked)) [
              | inl g ↦ ground (arith, h, e, f, g)
              | inr (inr (n, g)) ↦ ground (arith, h, e, f, g)
              | inr (inl (got, g)) ↦ ground (
                arith,
                h,
                e,
                f,
                g,
                bound object offset asked got g,
                read_count_small stream count,
              )
            ]
      ]
    ]

-- An exclusive CREATE that is sent again, after the first made the file and stored the verifier in
-- its times, ends with that file.
make_again :
    (verf : List ℕ) (buf : Stat) (w : Creating)
    → w.open_create ≡ some eexist
    → w.existing ≡ some (store_create_verifier verf buf)
    → make (exclusive verf) w ≡ made (store_create_verifier verf buf)
unfolding make after_failure check_create_verifier store_create_verifier
make_again verf buf w e f = ground (arith, e, f)

Result-cases :
    (r : Result) → ((fd : ℕ) × (r ≡ Result.opened fd)) ⊎ ((error : ℕ) × (r ≡ Result.failed error))
Result-cases (Result.opened fd) = inl (fd, refl)
Result-cases (Result.failed error) = inr (error, refl)

-- A write keeps the counters of the descriptor cache right, whatever fails.
pub write_data-Counted :
    (sys : Sys) (pwrite : ℕ → Option ℕ) (errno : ℕ) (how : StableHow) (path : FilePath)
    (file : NfsFh) (fds : Cache)
    → 0 < sys.now
    → Counted fds
    → Counted (write_data sys pwrite errno how path file fds).1.0
unfolding write_data
write_data-Counted sys pwrite errno how path file fds clock k =
    let opened = fd_open sys fds path file.obj Kind.write (is_unstable how) in
    let first = fd_open-Counted sys fds path file.obj Kind.write (is_unstable how) clock k in
    elim (Result-cases opened.1) [
      | inl (fd, e) ↦
          let closed =
            fd_close-Counted sys opened.0 fd Kind.write (not (is_unstable how)) clock first in
          ground (arith, e, closed, Option-cases (pwrite fd))
      | inr (error, e) ↦ ground (arith, e, first)
    ]
