-- ===== src/Readdir/Hash.antt =====
-- src/readdir.c: `directory_hash`, by which a change of removable media is noticed.
use Prim.Native.Nat.{bit_xor}
use nfsrods.Prelude.{ℕ, ◌*◌, ◌%◌, ◌^◌, ◌≡◌, refl, sym, ◌∙◌, List, [], ◌∷◌, ◌++◌, none, some}
use nfsrods.Backend.{FilePath, FileSys}
use nfsrods.Exports.Options.{fnv1a_32, sign_extended}

-- The loop over the names.
unfoldable hash_names : List FilePath → ℕ → ℕ
hash_names [] hval = hval
hash_names (name ∷ names) hval = hash_names names (fnv1a_32 name hval)

-- A directory that cannot be opened has the hash 0.
unfoldable directory_hash : FileSys → FilePath → ℕ
unfolding hash_names
directory_hash fs path = elim (fs.list_dir path) [ none ↦ 0 | some names ↦ hash_names names 0 ]

concat : List FilePath → FilePath
concat [] = []
concat (name ∷ names) = name ++ concat names

fnv1a_32-append :
    (xs ys : List ℕ) (hval : ℕ) → fnv1a_32 (xs ++ ys) hval ≡ fnv1a_32 ys (fnv1a_32 xs hval)
unfolding fnv1a_32
fnv1a_32-append [] ys hval = refl
fnv1a_32-append (x ∷ xs) ys hval =
    fnv1a_32-append xs ys ((bit_xor hval (sign_extended x) * 16777619) % 2 ^ 32)

hash_names-concat :
    (names : List FilePath) (hval : ℕ) → hash_names names hval ≡ fnv1a_32 (concat names) hval
unfolding hash_names concat fnv1a_32
hash_names-concat [] hval = refl
hash_names-concat (name ∷ names) hval =
    hash_names-concat names (fnv1a_32 name hval) ∙ sym (fnv1a_32-append name (concat names) hval)

-- The hash of a directory is that of the text of its names, one after the other, with nothing between
-- them: directories whose names make the same text have the same hash.
directory_hash-concat :
    (fs : FileSys) (path : FilePath) (names : List FilePath)
    → fs.list_dir path ≡ some names
    → directory_hash fs path ≡ fnv1a_32 (concat names) 0
unfolding directory_hash
directory_hash-concat fs path names h = rw (directory_hash, h) (hash_names-concat names 0)
