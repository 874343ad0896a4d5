-- ===== src/Xdr/Scalars.antt =====
-- src/xdr.c: the numbers, names, handles and verifiers that the other types are made of.
use nfsrods.Prelude.{ℕ, ◌^◌, ◌<◌, ◌≡◌, Bool, List, length, arith, ◌≤◌}
use nfsrods.Xdr.Codec.{Codec, Lawful}
use nfsrods.Xdr.Codec.Library.{Xdr, IsBytes, IsString, AreInts}

-- `~0`, as the bound of a length.
abbrev pub unbounded : ℕ
unbounded = 4294967295

abbrev pub bool : (x : Xdr) → Codec Bool
bool x = record { put = x.put_bool; get = x.get_bool; Fits = λ b. Unit {0} }

pub bool-Lawful : (x : Xdr) → Lawful (bool x)
bool-Lawful x b fits = x.bool_coded b

abbrev enum : (x : Xdr) → Codec ℕ
enum x = record { put = x.put_enum; get = x.get_enum; Fits = λ v. v < 2 ^ 31 }

enum-Lawful : (x : Xdr) → Lawful (enum x)
enum-Lawful x v fits = x.enum_coded v fits

abbrev opaque : (x : Xdr) (n : ℕ) → Codec (List ℕ)
opaque x n = record {
  put = x.put_opaque n;
  get = x.get_opaque n;
  Fits = λ bs. (length bs ≡ n) × IsBytes bs;
}

opaque-Lawful : (x : Xdr) (n : ℕ) → Lawful (opaque x n)
opaque-Lawful x n bs (l, fits) = x.opaque_coded n bs l fits

abbrev pub bytes : (x : Xdr) (n : ℕ) → Codec (List ℕ)
bytes x n = record {
  put = x.put_bytes n;
  get = x.get_bytes n;
  Fits = λ bs. (length bs ≤ n) × IsBytes bs;
}

pub bytes-Lawful : (x : Xdr) (n : ℕ) → n < 2 ^ 32 → Lawful (bytes x n)
bytes-Lawful x n bound bs (l, fits) = x.bytes_coded n bs bound l fits

abbrev pub string : (x : Xdr) (n : ℕ) → Codec (List ℕ)
string x n = record {
  put = x.put_string n;
  get = x.get_string n;
  Fits = λ bs. (length bs ≤ n) × IsString bs;
}

string-Lawful : (x : Xdr) (n : ℕ) → n < 2 ^ 32 → Lawful (string x n)
string-Lawful x n bound bs (l, fits) = x.string_coded n bs bound l fits

abbrev pub int_array : (x : Xdr) (n : ℕ) → Codec (List ℕ)
int_array x n = record {
  put = x.put_int_array n;
  get = x.get_int_array n;
  Fits = λ ns. (length ns ≤ n) × AreInts ns;
}

pub int_array-Lawful : (x : Xdr) (n : ℕ) → n < 2 ^ 32 → Lawful (int_array x n)
int_array-Lawful x n bound ns (l, fits) = x.int_array_coded n ns bound l fits

unfoldable pub xdr_uint64 : (x : Xdr) → Codec ℕ
xdr_uint64 x = record { put = x.put_uint64_t; get = x.get_uint64_t; Fits = λ v. v < 2 ^ 64 }

pub xdr_uint64-Lawful : (x : Xdr) → Lawful (xdr_uint64 x)
unfolding xdr_uint64
xdr_uint64-Lawful x v fits = x.uint64_t_coded v fits

unfoldable pub xdr_uint32 : (x : Xdr) → Codec ℕ
xdr_uint32 x = record { put = x.put_u_long; get = x.get_u_long; Fits = λ v. v < 2 ^ 32 }

pub xdr_uint32-Lawful : (x : Xdr) → Lawful (xdr_uint32 x)
unfolding xdr_uint32
xdr_uint32-Lawful x v fits = x.u_long_coded v fits

pub xdr_fhandle3 : (x : Xdr) → Codec (List ℕ)
xdr_fhandle3 x = bytes x 64

pub xdr_fhandle3-Lawful : (x : Xdr) → Lawful (xdr_fhandle3 x)
unfolding xdr_fhandle3
xdr_fhandle3-Lawful x = bytes-Lawful x 64 (omega arith)

xdr_mountstat3 : (x : Xdr) → Codec ℕ
xdr_mountstat3 x = enum x

xdr_mountstat3-Lawful : (x : Xdr) → Lawful (xdr_mountstat3 x)
unfolding xdr_mountstat3
xdr_mountstat3-Lawful x = enum-Lawful x

unfoldable pub xdr_dirpath : (x : Xdr) → Codec (List ℕ)
xdr_dirpath x = string x 1024

pub xdr_dirpath-Lawful : (x : Xdr) → Lawful (xdr_dirpath x)
unfolding xdr_dirpath
xdr_dirpath-Lawful x = string-Lawful x 1024 (omega arith)

unfoldable pub xdr_name : (x : Xdr) → Codec (List ℕ)
xdr_name x = string x 255

pub xdr_name-Lawful : (x : Xdr) → Lawful (xdr_name x)
unfolding xdr_name
xdr_name-Lawful x = string-Lawful x 255 (omega arith)

xdr_filename : (x : Xdr) → Codec (List ℕ)
xdr_filename x = string x 255

xdr_filename-Lawful : (x : Xdr) → Lawful (xdr_filename x)
unfolding xdr_filename
xdr_filename-Lawful x = string-Lawful x 255 (omega arith)

xdr_nfspath : (x : Xdr) → Codec (List ℕ)
xdr_nfspath x = string x 1024

xdr_nfspath-Lawful : (x : Xdr) → Lawful (xdr_nfspath x)
unfolding xdr_nfspath
xdr_nfspath-Lawful x = string-Lawful x 1024 (omega arith)

pub xdr_filename3 : (x : Xdr) → Codec (List ℕ)
xdr_filename3 x = string x unbounded

pub xdr_filename3-Lawful : (x : Xdr) → Lawful (xdr_filename3 x)
unfolding xdr_filename3
xdr_filename3-Lawful x = string-Lawful x unbounded (omega arith)

pub xdr_nfspath3 : (x : Xdr) → Codec (List ℕ)
xdr_nfspath3 x = string x unbounded

pub xdr_nfspath3-Lawful : (x : Xdr) → Lawful (xdr_nfspath3 x)
unfolding xdr_nfspath3
xdr_nfspath3-Lawful x = string-Lawful x unbounded (omega arith)

pub xdr_fileid3 : (x : Xdr) → Codec ℕ
xdr_fileid3 x = xdr_uint64 x

pub xdr_fileid3-Lawful : (x : Xdr) → Lawful (xdr_fileid3 x)
unfolding xdr_fileid3
xdr_fileid3-Lawful x = xdr_uint64-Lawful x

pub xdr_cookie3 : (x : Xdr) → Codec ℕ
xdr_cookie3 x = xdr_uint64 x

pub xdr_cookie3-Lawful : (x : Xdr) → Lawful (xdr_cookie3 x)
unfolding xdr_cookie3
xdr_cookie3-Lawful x = xdr_uint64-Lawful x

pub xdr_cookieverf3 : (x : Xdr) → Codec (List ℕ)
xdr_cookieverf3 x = opaque x 8

pub xdr_cookieverf3-Lawful : (x : Xdr) → Lawful (xdr_cookieverf3 x)
unfolding xdr_cookieverf3
xdr_cookieverf3-Lawful x = opaque-Lawful x 8

pub xdr_createverf3 : (x : Xdr) → Codec (List ℕ)
xdr_createverf3 x = opaque x 8

pub xdr_createverf3-Lawful : (x : Xdr) → Lawful (xdr_createverf3 x)
unfolding xdr_createverf3
xdr_createverf3-Lawful x = opaque-Lawful x 8

pub xdr_writeverf3 : (x : Xdr) → Codec (List ℕ)
xdr_writeverf3 x = opaque x 8

pub xdr_writeverf3-Lawful : (x : Xdr) → Lawful (xdr_writeverf3 x)
unfolding xdr_writeverf3
xdr_writeverf3-Lawful x = opaque-Lawful x 8

pub xdr_uid3 : (x : Xdr) → Codec ℕ
xdr_uid3 x = xdr_uint32 x

pub xdr_uid3-Lawful : (x : Xdr) → Lawful (xdr_uid3 x)
unfolding xdr_uid3
xdr_uid3-Lawful x = xdr_uint32-Lawful x

pub xdr_gid3 : (x : Xdr) → Codec ℕ
xdr_gid3 x = xdr_uint32 x

pub xdr_gid3-Lawful : (x : Xdr) → Lawful (xdr_gid3 x)
unfolding xdr_gid3
xdr_gid3-Lawful x = xdr_uint32-Lawful x

pub xdr_size3 : (x : Xdr) → Codec ℕ
xdr_size3 x = xdr_uint64 x

pub xdr_size3-Lawful : (x : Xdr) → Lawful (xdr_size3 x)
unfolding xdr_size3
xdr_size3-Lawful x = xdr_uint64-Lawful x

unfoldable pub xdr_offset3 : (x : Xdr) → Codec ℕ
xdr_offset3 x = xdr_uint64 x

pub xdr_offset3-Lawful : (x : Xdr) → Lawful (xdr_offset3 x)
unfolding xdr_offset3
xdr_offset3-Lawful x = xdr_uint64-Lawful x

pub xdr_mode3 : (x : Xdr) → Codec ℕ
xdr_mode3 x = xdr_uint32 x

pub xdr_mode3-Lawful : (x : Xdr) → Lawful (xdr_mode3 x)
unfolding xdr_mode3
xdr_mode3-Lawful x = xdr_uint32-Lawful x

unfoldable pub xdr_count3 : (x : Xdr) → Codec ℕ
xdr_count3 x = xdr_uint32 x

pub xdr_count3-Lawful : (x : Xdr) → Lawful (xdr_count3 x)
unfolding xdr_count3
xdr_count3-Lawful x = xdr_uint32-Lawful x

xdr_nfsstat3 : (x : Xdr) → Codec ℕ
xdr_nfsstat3 x = enum x

xdr_nfsstat3-Lawful : (x : Xdr) → Lawful (xdr_nfsstat3 x)
unfolding xdr_nfsstat3
xdr_nfsstat3-Lawful x = enum-Lawful x

pub xdr_ftype3 : (x : Xdr) → Codec ℕ
xdr_ftype3 x = enum x

pub xdr_ftype3-Lawful : (x : Xdr) → Lawful (xdr_ftype3 x)
unfolding xdr_ftype3
xdr_ftype3-Lawful x = enum-Lawful x

unfoldable pub xdr_nfs_fh3 : (x : Xdr) → Codec (List ℕ)
xdr_nfs_fh3 x = bytes x 64

pub xdr_nfs_fh3-Lawful : (x : Xdr) → Lawful (xdr_nfs_fh3 x)
unfolding xdr_nfs_fh3
xdr_nfs_fh3-Lawful x = bytes-Lawful x 64 (omega arith)

pub xdr_time_how : (x : Xdr) → Codec ℕ
xdr_time_how x = enum x

pub xdr_time_how-Lawful : (x : Xdr) → Lawful (xdr_time_how x)
unfolding xdr_time_how
xdr_time_how-Lawful x = enum-Lawful x

unfoldable pub xdr_stable_how : (x : Xdr) → Codec ℕ
xdr_stable_how x = enum x

pub xdr_stable_how-Lawful : (x : Xdr) → Lawful (xdr_stable_how x)
unfolding xdr_stable_how
xdr_stable_how-Lawful x = enum-Lawful x

unfoldable pub xdr_createmode3 : (x : Xdr) → Codec ℕ
xdr_createmode3 x = enum x

xdr_createmode3-Lawful : (x : Xdr) → Lawful (xdr_createmode3 x)
unfolding xdr_createmode3
xdr_createmode3-Lawful x = enum-Lawful x
