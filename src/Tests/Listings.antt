-- ===== src/Tests/Listings.antt =====
-- Runs of the model of src/readdir.c.
use nfsrods.Prelude.{
  ℕ, zero, suc, ◌+◌, ◌≡◌, refl, false, List, [], ◌∷◌, ◌++◌, map, length, some, bytes, arith,
}
use nfsrods.Backend.{FilePath}
use nfsrods.Readdir.Page.{Entry3, start_of, fill, read_dir}
use nfsrods.Readdir.Laws.{is_empty, read_dir-names}
use nfsrods.Readdir.Walk.{walk, AllStat, walk-all}
use nfsrods.Tests.Samples.{small_fs, names_of_root}

abbrev entry : ℕ → FilePath → ℕ → Entry3
entry fileid name cookie = record { fileid = fileid; name = name; cookie = cookie }

-- With 160 bytes a page holds two entries: 104, and 28 for each.
abbrev first_page : List Entry3
first_page = entry 2 (bytes ".") 1 ∷ (entry 2 (bytes "..") 2 ∷ [])

read_dir-names_example :
    (rest : List FilePath) × (names_of_root ≡ map (λ (e : Entry3). e.name) first_page ++ rest)
    × (is_empty rest ≡ false)
unfolding read_dir start_of fill
read_dir-names_example =
    read_dir-names small_fs (λ p. 5) false 0 (bytes "/") names_of_root refl 0 160 first_page false
      refl

root-AllStat : AllStat small_fs (bytes "/") names_of_root
root-AllStat zero name at = ground arith
root-AllStat (suc zero) name at = ground arith
root-AllStat (suc (suc zero)) name at = ground arith
root-AllStat (suc (suc (suc i))) name at = absurd (ground arith)

walk-all_example :
    walk small_fs (λ p. 5) 0 (bytes "/") 160 (length names_of_root + 1) 0 ≡ some names_of_root
walk-all_example =
    walk-all small_fs (λ p. 5) 0 (bytes "/") 160 names_of_root refl root-AllStat (omega arith)
      (omega arith)
