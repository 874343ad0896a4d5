-- ===== src/Fh/Handles.antt =====
-- src/fh.h and src/fh.c: file handles, how a path is composed into one and how one is extended.
-- Where the source leaves a field unset, 0 stands for it.
use Prim.Native.Nat.{bit_and, bit_xor}
use nfsrods.Prelude.{
  ℕ, zero, suc, ◌+◌, ◌-◌, ◌/◌, ◌%◌, ◌^◌, Bool, true, false, not, ◌&&◌, ◌||◌, ◌==◌, ltb,
  if◌then◌else◌, List, [], ◌∷◌, ◌++◌, Option, none, some, length, str_eq,
}
use nfsrods.Backend.{FilePath, Stat, FileSys, StatCache, u32_mod, s_isdir}

-- `FH_MINLEN`, `FH_MAXLEN`.
abbrev pub fh_minlen : ℕ
fh_minlen = 21

abbrev pub fh_maxlen : ℕ
fh_maxlen = 64 - fh_minlen

-- `unfs3_fh_t`; `inos` holds the first `len` bytes of the array, so `len` is its length.
pub record Handle : Type 0 where
  pub dev : ℕ
  pub ino : ℕ
  pub gen : ℕ
  pub pwhash : ℕ
  pub inos : List ℕ

-- `FH_HASH`: the bytes of an inode number, combined by exclusive or.
unfoldable pub fh_hash : ℕ → ℕ
fh_hash n =
    bit_xor
      (bit_xor
        (bit_xor
          (bit_xor (bit_xor (bit_xor (bit_xor n (n / 2 ^ 8)) (n / 2 ^ 16)) (n / 2 ^ 24))
            (n / 2 ^ 32))
          (n / 2 ^ 40))
        (n / 2 ^ 48))
      (n / 2 ^ 56)
    % 2 ^ 8

-- With neither `st_gen` nor the ext2 ioctl (config.h) the generation is the inode, cut to 32 bits.
unfoldable pub get_gen : Stat → ℕ
get_gen obuf = obuf.ino % u32_mod

-- The sizes of `len`, `dev`, `ino`, `gen` and `pwhash` are 1, 4, 8, 4 and 4.
unfoldable pub fh_length : Handle → ℕ
fh_length fh = length fh.inos + 1 + 4 + 8 + 4 + 4

-- A handle as it comes from the network: its bytes are read as `unfs3_fh_t`, whose field `len` is
-- then `len`; `data_len` is the length that the network gives.
pub record NfsFh : Type 0 where
  pub data_len : ℕ
  pub len : ℕ
  pub obj : Handle

unfoldable pub nfh_valid : NfsFh → Bool
nfh_valid fh =
    if ltb fh.data_len fh_minlen
    then false
    else if not (fh.data_len == fh.len + 1 + 4 + 8 + 4 + 4)
    then false
    else true

unfoldable pub fh_valid : Handle → Bool
fh_valid fh = not (fh.dev == 0) || not (fh.ino == 0)

abbrev pub invalid_fh : Handle
invalid_fh = record { dev = 0; ino = 0; gen = 0; pwhash = 0; inos = [] }

abbrev pub slash : ℕ
slash = 47

-- The paths that the loop of `fh_comp_raw` stats: what stands before each later slash, and the
-- whole path. `work` is what stands before the rest.
unfoldable pub prefixes : FilePath → FilePath → List FilePath
prefixes work [] = work ∷ []
prefixes work (c ∷ cs) =
    let rest = prefixes (work ++ (c ∷ [])) cs in if c == slash then work ∷ rest else rest

-- The loop itself; at most `room` hashes fit, and a deeper path is an error.
unfoldable pub hashes : FileSys → ℕ → List FilePath → Option (List ℕ)
hashes fs room [] = some []
hashes fs zero (p ∷ ps) = none
hashes fs (suc room) (p ∷ ps) =
    let rest = hashes fs room ps in
    elim (fs.lstat p) [
      | none ↦ none
      | some buf ↦ elim rest [ none ↦ none | some hs ↦ some (fh_hash buf.ino ∷ hs) ]
    ]

-- `strcpy(work, path); *work = '/'`, and the loop.
unfoldable pub comp_inos : FileSys → FilePath → Option (List ℕ)
unfolding prefixes hashes
comp_inos fs [] = hashes fs fh_maxlen ((slash ∷ []) ∷ [])
comp_inos fs (c ∷ cs) = hashes fs fh_maxlen (prefixes (slash ∷ []) cs)

-- `fh_comp_raw` where its first `if` does not return; `removable` is what that `if` found: the
-- preset fsid of a removable export point, or an export list that changed meanwhile.
pub data Special : Type 0 where
  ordinary : Special
  changed : Special
  removable : ℕ → Special

unfoldable pub fh_comp_raw : FileSys → Special → FilePath → Bool → Handle
unfolding get_gen comp_inos
fh_comp_raw fs Special.changed path need_dir = invalid_fh
fh_comp_raw fs (Special.removable fsid) path need_dir = record {
  dev = fsid;
  ino = 1;
  gen = 0;
  pwhash = 0;
  inos = [];
}
fh_comp_raw fs Special.ordinary path need_dir = elim (fs.lstat path) [
  | none ↦ invalid_fh
  | some buf ↦
      if need_dir && not (s_isdir buf.mode)
      then invalid_fh
      else if str_eq path (slash ∷ [])
      then record {
        dev = buf.dev % u32_mod;
        ino = buf.ino;
        gen = get_gen buf;
        pwhash = 0;
        inos = [];
      }
      else elim (comp_inos fs path) [
        | none ↦ invalid_fh
        | some inos ↦ record {
          dev = buf.dev % u32_mod;
          ino = buf.ino;
          gen = get_gen buf;
          pwhash = 0;
          inos = inos;
        }
      ]
]

-- `fh_extend`: `base` is the handle to extend. `point` answers `export_point_from_fsid` (the path
-- of the export with that fsid), and `password_hash` is `export_password_hash`.
unfoldable pub extend_base : FileSys → (ℕ → Option FilePath) → Handle → Option Handle
unfolding fh_comp_raw fh_valid
extend_base fs point base =
    if length base.inos == 0
    then elim (point base.dev) [
      | none ↦ some base
      | some path ↦
          let fh = fh_comp_raw fs Special.ordinary path false in
          if fh_valid fh then some fh else none
    ]
    else some base

unfoldable pub fh_extend : FileSys → (ℕ → Option FilePath) → ℕ → Handle → ℕ → ℕ → ℕ → Option Handle
unfolding extend_base fh_hash
fh_extend fs point password_hash base dev ino gen = elim (extend_base fs point base) [
  | none ↦ none
  | some new ↦
      if length new.inos == fh_maxlen
      then none
      else some (record {
        dev = dev;
        ino = ino;
        gen = gen;
        pwhash = password_hash;
        inos = new.inos ++ (fh_hash ino ∷ []);
      })
]

-- The bytes that are sent for a handle: `data_len = fh_length(new); data_val = new`.
unfoldable pub on_wire : Handle → NfsFh
unfolding fh_length
on_wire new = record { data_len = fh_length new; len = length new.inos; obj = new }

-- `none` is `handle_follows = FALSE`. The device is cut to the 32 bits of the parameter.
unfoldable pub fh_extend_post :
    FileSys → (ℕ → Option FilePath) → ℕ → Handle → ℕ → ℕ → ℕ → Option NfsFh
unfolding fh_extend on_wire
fh_extend_post fs point password_hash base dev ino gen =
    elim (fh_extend fs point password_hash base (dev % u32_mod) ino gen) [
      | none ↦ none
      | some new ↦ some (on_wire new)
    ]

-- `fh_extend_type`, with the stat cache that it leaves.
unfoldable pub fh_extend_type :
    FileSys
    → (ℕ → Option FilePath)
    → ℕ
    → StatCache
    → Handle
    → FilePath
    → ℕ
    → Option NfsFh × StatCache
unfolding fh_extend_post get_gen
fh_extend_type fs point password_hash cache base path type = elim (fs.lstat path) [
  | none ↦ (none, record cache { valid = false })
  | some buf ↦
      if not (bit_and buf.mode type == type) then (none, record cache { valid = false }) else (
        fh_extend_post fs point password_hash base buf.dev buf.ino (get_gen buf),
        record { valid = true; stat = buf },
      )
]
