-- ===== src/Xdr/Laws.antt =====
-- src/xdr.c: what is written is read back.
use nfsrods.Prelude.{
  ℕ, zero, suc, ◌%◌, ◌^◌, ◌≤◌, ◌<◌, ◌≡◌, List, [], ◌∷◌, ◌++◌, some, length, arith,
}
use nfsrods.Mount.Table.{Mountbody}
use nfsrods.Xdr.Codec.{Codec, Coded, both}
use nfsrods.Xdr.Codec.Library.{Xdr, IsBytes, IsString}
use nfsrods.Xdr.Scalars.{
  xdr_name, xdr_dirpath, xdr_nfs_fh3, xdr_offset3, xdr_uint64, xdr_count3, xdr_uint32,
  xdr_stable_how,
}
use nfsrods.Xdr.Creates.{Create3args, xdr_create3args, xdr_create3args-Lawful}
use nfsrods.Xdr.Writes.{Write3args, xdr_write3args, xdr_write3args-Lawful}
use nfsrods.Xdr.Mounts.{xdr_mountlist, xdr_mountlist-Lawful, xdr_mountbody}

module _ {A : Type 0} (c : Codec A) where
  coded_lem :
      (a : A) (rest : List ℕ)
      → Coded c.put c.get a
      → (wire : List ℕ) × ((c.put a ≡ some wire)
          × ((length wire % 4 ≡ 0) × (c.get (wire ++ rest) ≡ some (a, rest))))
  coded_lem a rest m = (m.wire, (m.written, (m.aligned, m.read_back rest)))

-- What the protocol allows in the arguments of WRITE: a handle of at most 64 bytes, an offset of 64
-- bits, a count of 32, and any bytes whose number fits 32 bits; `stable` is a value of its C type.
pub record IsWrite (a : Write3args) : Type 0 where
  pub file : (length a.file ≤ 64) × IsBytes a.file
  pub offset : a.offset < 2 ^ 64
  pub count : a.count < 2 ^ 32
  pub stable : a.stable < 2 ^ 31
  pub data_val : (length a.data_val < 2 ^ 32) × IsBytes a.data_val

write3args-Fits : (x : Xdr) (a : Write3args) → IsWrite a → (xdr_write3args x).Fits a
unfolding xdr_write3args xdr_nfs_fh3 xdr_offset3 xdr_uint64 xdr_count3 xdr_uint32 xdr_stable_how
    both
write3args-Fits x a w =
    let (short, of_bytes) = w.data_val in
    (w.file, (w.offset, (w.count, (w.stable, (omega arith, of_bytes)))))

-- Arguments of WRITE whose handle has at most 64 bytes, whose offset, count and `stable` lie in the
-- ranges of their types, and whose data are any bytes, fewer than 2 ^ 32, are written in whole words,
-- and whatever follows them on the stream, they are read back and the rest is left.
pub xdr_write3args_round_trip :
    (x : Xdr) (a : Write3args) (rest : List ℕ)
    → IsWrite a
    → (wire : List ℕ) × (((xdr_write3args x).put a ≡ some wire)
        × ((length wire % 4 ≡ 0) × ((xdr_write3args x).get (wire ++ rest) ≡ some (a, rest))))
xdr_write3args_round_trip x a rest w =
    coded_lem (xdr_write3args x) a rest (xdr_write3args-Lawful x a (write3args-Fits x a w))

-- Arguments of CREATE that the protocol can carry are written and read back in the same way.
xdr_create3args_round_trip :
    (x : Xdr) (a : Create3args) (rest : List ℕ)
    → (xdr_create3args x).Fits a
    → (wire : List ℕ) × (((xdr_create3args x).put a ≡ some wire)
        × ((length wire % 4 ≡ 0) × ((xdr_create3args x).get (wire ++ rest) ≡ some (a, rest))))
xdr_create3args_round_trip x a rest fits =
    coded_lem (xdr_create3args x) a rest (xdr_create3args-Lawful x a fits)

-- The bodies that the mount protocol can carry.
abbrev pub AreBodies : List Mountbody → Type 0
AreBodies [] = Unit {0}
AreBodies (b ∷ bs) =
    ((length b.hostname ≤ 255) × IsString b.hostname)
    × (((length b.directory ≤ 1024) × IsString b.directory) × AreBodies bs)

mountlist-Fits :
    (x : Xdr) (depth : ℕ) (bs : List Mountbody)
    → length bs ≤ depth
    → AreBodies bs
    → (xdr_mountlist x depth).Fits bs
unfolding xdr_mountlist xdr_mountbody xdr_name xdr_dirpath both
mountlist-Fits x depth [] short are = tt
mountlist-Fits x zero (b ∷ bs) short are = absurd (omega arith)
mountlist-Fits x (suc depth) (b ∷ bs) short (host, (dir, are)) =
    ((host, dir), mountlist-Fits x depth bs (omega arith) are)

-- A list of mounts whose host names have at most 255 bytes and whose paths at most 1024, without zeros,
-- and that is no longer than the depth, is written in whole words and read back, whatever follows it.
pub xdr_mountlist_round_trip :
    (x : Xdr) (depth : ℕ) (bs : List Mountbody) (rest : List ℕ)
    → length bs ≤ depth
    → AreBodies bs
    → (wire : List ℕ) × (((xdr_mountlist x depth).put bs ≡ some wire)
        × ((length wire % 4 ≡ 0) × ((xdr_mountlist x depth).get (wire ++ rest) ≡ some (bs, rest))))
xdr_mountlist_round_trip x depth bs rest short are =
    coded_lem (xdr_mountlist x depth) bs rest
      (xdr_mountlist-Lawful x depth bs (mountlist-Fits x depth bs short are))
