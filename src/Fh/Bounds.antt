-- ===== src/Fh/Bounds.antt =====
-- src/fh.c: the sizes of file handles.
use nfsrods.Prelude.{
  ℕ, zero, suc, ◌≤◌, ◌<◌, ◌≡◌, inl, inr, Bool, true, false, List, [], ◌∷◌, ◌++◌, Option, some,
  length, length-append, arith, Option-cases,
}
use nfsrods.Backend.{FilePath, FileSys}
use nfsrods.Fh.Handles.{
  Handle, Special, slash, fh_hash, fh_length, fh_maxlen, nfh_valid, prefixes, hashes, comp_inos,
  fh_comp_raw, extend_base, fh_extend, on_wire,
}

abbrev AllBytes : List ℕ → Type 0
AllBytes [] = Unit {0}
AllBytes (h ∷ hs) = (h < 256) × AllBytes hs

-- The array `inos` is within its bounds, and its cells are bytes.
pub record IsHandle (fh : Handle) : Type 0 where
  pub fits : length fh.inos ≤ fh_maxlen
  pub hashes_are_bytes : AllBytes fh.inos

fh_hash-lt : (n : ℕ) → fh_hash n < 256
unfolding fh_hash
fh_hash-lt n = omega arith

hashes-bounds :
    (fs : FileSys) (room : ℕ) (ps : List FilePath) (hs : List ℕ)
    → hashes fs room ps ≡ some hs
    → (length hs ≤ room) × AllBytes hs
unfolding hashes
hashes-bounds fs room [] [] h = (omega arith, tt)
hashes-bounds fs room [] (x ∷ hs) h = absurd (ground arith)
hashes-bounds fs zero (p ∷ ps) hs h = absurd (ground arith)
hashes-bounds fs (suc room) (p ∷ ps) [] h = absurd (ground arith)
hashes-bounds fs (suc room) (p ∷ ps) (x ∷ hs) h = elim (Option-cases (fs.lstat p)) [
  | inl e ↦ absurd (ground arith)
  | inr (b, e) ↦
      ground
        (arith, fh_hash-lt b.ino, hashes-bounds fs room ps hs, Option-cases (hashes fs room ps))
]

comp_inos-bounds :
    (fs : FileSys) (path : FilePath) (hs : List ℕ)
    → comp_inos fs path ≡ some hs
    → (length hs ≤ fh_maxlen) × AllBytes hs
unfolding comp_inos
comp_inos-bounds fs [] hs h = hashes-bounds fs fh_maxlen ((slash ∷ []) ∷ []) hs h
comp_inos-bounds fs (c ∷ cs) hs h = hashes-bounds fs fh_maxlen (prefixes (slash ∷ []) cs) hs h

comp_ordinary-IsHandle :
    (fs : FileSys) (path : FilePath) (need_dir : Bool)
    → IsHandle (fh_comp_raw fs Special.ordinary path need_dir)
unfolding fh_comp_raw
comp_ordinary-IsHandle fs path need_dir = elim (Option-cases (comp_inos fs path)) [
  | inl e ↦ ground (arith, Option-cases (fs.lstat path))
  | inr (hs, e) ↦ ground (arith, Option-cases (fs.lstat path), comp_inos-bounds fs path hs e)
]

-- What `fh_comp_raw` returns is well-formed on every branch, errors included: no more hashes than
-- the array has cells, and each a byte.
pub fh_comp_raw-IsHandle :
    (fs : FileSys) (special : Special) (path : FilePath) (need_dir : Bool)
    → IsHandle (fh_comp_raw fs special path need_dir)
unfolding fh_comp_raw
fh_comp_raw-IsHandle fs Special.changed path need_dir = record {
  fits = omega arith;
  hashes_are_bytes = tt;
}
fh_comp_raw-IsHandle fs (Special.removable fsid) path need_dir = record {
  fits = omega arith;
  hashes_are_bytes = tt;
}
fh_comp_raw-IsHandle fs Special.ordinary path need_dir = comp_ordinary-IsHandle fs path need_dir

extend_base-IsHandle :
    (fs : FileSys) (point : ℕ → Option FilePath) (base new : Handle)
    → IsHandle base
    → extend_base fs point base ≡ some new
    → IsHandle new
unfolding extend_base
extend_base-IsHandle fs point base new ok h = elim (Option-cases (point base.dev)) [
  | inl e ↦ ground arith
  | inr (path, e) ↦ ground (arith, comp_ordinary-IsHandle fs path false)
]

AllBytes-append : (hs : List ℕ) (h : ℕ) → AllBytes hs → h < 256 → AllBytes (hs ++ (h ∷ []))
AllBytes-append [] h all small = (small, tt)
AllBytes-append (x ∷ hs) h all small = (all.0, AllBytes-append hs h all.1 small)

-- A handle extended from a well-formed one is well-formed, at most 64 bytes long on the network,
-- and accepted when it comes back.
pub fh_extend-IsHandle :
    (fs : FileSys) (point : ℕ → Option FilePath) (pw : ℕ) (base : Handle) (dev ino gen : ℕ)
    (new : Handle)
    → IsHandle base
    → fh_extend fs point pw base dev ino gen ≡ some new
    → IsHandle new × (fh_length new ≤ 64) × (nfh_valid (on_wire new) ≡ true)
unfolding fh_extend fh_length nfh_valid on_wire
fh_extend-IsHandle fs point pw base dev ino gen new ok h =
    elim (Option-cases (extend_base fs point base)) [
      | inl e ↦ absurd (ground arith)
      | inr (b, e) ↦
          let ok' = extend_base-IsHandle fs point base b ok e in
          ground (
            arith,
            length-append b.inos (fh_hash ino ∷ []),
            AllBytes-append b.inos (fh_hash ino) ok'.hashes_are_bytes (fh_hash-lt ino),
          )
    ]
