-- ===== src/Readdir/Laws.antt =====
-- src/readdir.c: the names, the cookies and the size of one page.
use nfsrods.Prelude.{
  ℕ, zero, suc, ◌+◌, ◌*◌, ◌/◌, ◌%◌, ◌≤◌, ◌<◌, ◌≡◌, ◌⊎◌, inl, inr, refl, ap, sym, ◌∙◌, ltb, Bool,
  true, false, ◌&&◌, if◌then◌else◌, List, [], ◌∷◌, ◌++◌, map, some, length, drop, get_elem?, arith,
  Bool-cases, Option-cases,
}
use nfsrods.Status.{Nfsstat3}
use nfsrods.Backend.{FilePath, FileSys, Stat, nfs_maxpathlen, u32_mod}
use nfsrods.Readdir.Page.{
  max_entries, resok_size, entry_size, name_size, Entry3, Readdir3res, path_of, cookie_of, start_of,
  fill, read_dir,
}

-- A cookie stands for the place after its entry.
pub start_of-cookie_of :
    (rcookie n : ℕ) → n + 1 < u32_mod → start_of rcookie (cookie_of rcookie n) ≡ n + 1
unfolding start_of
start_of-cookie_of rcookie n small =
    let upper : (rcookie * u32_mod + n + 1) / u32_mod ≡ rcookie = omega arith in
    let lower : (rcookie * u32_mod + n + 1) % u32_mod ≡ n + 1 = omega arith in
    ground (arith, upper, lower)

-- A result, as an equation to split on.
pub data ResView (r : Readdir3res) : Type 0 where
  page : (es : List Entry3) (eof : Bool) → r ≡ Readdir3res.resok es eof → ResView r
  fail : (status : Nfsstat3) → r ≡ Readdir3res.resfail status → ResView r

pub res_view : (r : Readdir3res) → ResView r
res_view (Readdir3res.resok es eof) = ResView.page es eof refl
res_view (Readdir3res.resfail status) = ResView.fail status refl

abbrev pub is_empty {ℓ} : {A : Type ℓ} → List A → Bool
is_empty [] = true
is_empty (x ∷ xs) = false

-- The bytes that the entries take.
abbrev pub bytes_of : List Entry3 → ℕ
bytes_of [] = 0
bytes_of (e ∷ es) = entry_size + name_size e.name + bytes_of es

module _ (fs : FileSys) (errno : FilePath → ℕ) (dir : FilePath) (rcookie start count : ℕ) where
  abbrev pub run : ℕ → ℕ → List FilePath → Readdir3res
  run size i names = fill fs errno dir rcookie start count size i names

  -- One round that goes on: the entry stands before the page of the remaining names.
  record Step (size i : ℕ) (name : FilePath) (names : List FilePath) (es : List Entry3) (eof : Bool)
      : Type 0 where
    buf : Stat
    there : fs.lstat (path_of dir name) ≡ some buf
    more : List Entry3
    rest : run (size + entry_size + name_size name) (suc i) names ≡ Readdir3res.resok more eof
    whole :
        es ≡ record { fileid = buf.ino; name = name; cookie = cookie_of rcookie (start + i) } ∷ more
    fits : (size + entry_size + name_size name ≤ count) ⊎ (i ≡ 0)

  step :
      (size i : ℕ) (name : FilePath) (names : List FilePath) (es : List Entry3) (eof : Bool)
      → run size i (name ∷ names) ≡ Readdir3res.resok es eof
      → ((es ≡ []) × (eof ≡ false)) ⊎ Step size i name names es eof
  unfolding fill
  step size i name names es eof h =
      elim (Bool-cases (
        ltb size count && ltb i max_entries && ltb (length dir + length name + 1) nfs_maxpathlen)) [
          | inr stop ↦ inl (ground arith)
          | inl on ↦ elim (Option-cases (fs.lstat (path_of dir name))) [
            | inl missing ↦ absurd (ground arith)
            | inr (buf, at) ↦
                let size' = size + entry_size + name_size name in
                elim (Bool-cases (ltb count size' && ltb 0 i)) [
                  | inl over ↦ inl (ground arith)
                  | inr fits ↦ elim (res_view (run size' (suc i) names)) [
                    | ResView.fail status e ↦ absurd (ground arith)
                    | ResView.page more eof' e ↦ inr (record {
                      buf = buf;
                      there = at;
                      more = more;
                      rest = ground arith;
                      whole = ground arith;
                      fits = ground arith;
                    })
                  ]
                ]
          ]
        ]

  fill-names :
      (size i : ℕ) (names : List FilePath) (es : List Entry3) (eof : Bool)
      → run size i names ≡ Readdir3res.resok es eof
      → (rest : List FilePath) × (names ≡ map (λ e. e.name) es ++ rest) × (is_empty rest ≡ eof)
  unfolding fill
  fill-names size i [] es eof h =
      let none_left : es ≡ [] = ground arith in ([], rw none_left refl, ground arith)
  fill-names size i (name ∷ names) es eof h = elim (step size i name names es eof h) [
    | inl (stopped, more) ↦ (name ∷ names, rw stopped refl, sym more)
    | inr s ↦
        let (rest, split, end) =
          fill-names (size + entry_size + name_size name) (suc i) names s.more eof s.rest in
        (rest, rw (s.whole, split) refl, end)
  ]

  fill-cookies :
      (size i : ℕ) (names : List FilePath) (es : List Entry3) (eof : Bool) (k : ℕ) (e : Entry3)
      → run size i names ≡ Readdir3res.resok es eof
      → get_elem? es k ≡ some e
      → e.cookie ≡ cookie_of rcookie (start + i + k)
  unfolding fill
  fill-cookies size i [] es eof k e h at =
      let none_left : es ≡ [] = ground arith in absurd (ground arith)
  fill-cookies size i (name ∷ names) es eof zero e h at = elim (step size i name names es eof h) [
    | inl (stopped, more) ↦ absurd (ground arith)
    | inr s ↦ let first = rw s.whole at at in ground arith
  ]
  fill-cookies size i (name ∷ names) es eof (suc k) e h at =
      elim (step size i name names es eof h) [
        | inl (stopped, more) ↦ absurd (ground arith)
        | inr s ↦
            let later = rw s.whole at at in
            omega (
              arith,
              fill-cookies (size + entry_size + name_size name) (suc i) names s.more eof k e s.rest
                  later,
            )
      ]

  fill-size :
      (size i : ℕ) (names : List FilePath) (es : List Entry3) (eof : Bool)
      → run size i names ≡ Readdir3res.resok es eof
      → (es ≡ []) ⊎ ((size + bytes_of es ≤ count) ⊎ ((i ≡ 0) × (length es ≡ 1)))
  unfolding fill
  fill-size size i [] es eof h = inl (ground arith)
  fill-size size i (name ∷ names) es eof h = elim (step size i name names es eof h) [
    | inl (stopped, more) ↦ inl stopped
    | inr s ↦
        let after =
          fill-size (size + entry_size + name_size name) (suc i) names s.more eof s.rest in
        inr (rw s.whole (ground (arith, after, s.fits)))
  ]

module _ (fs : FileSys) (errno : FilePath → ℕ) (is_removable : Bool) (rcookie : ℕ) (dir : FilePath)
    (names : List FilePath) (readable : fs.list_dir dir ≡ some names) (cookie count : ℕ)
    (es : List Entry3) (eof : Bool)
    (answer : read_dir fs errno is_removable rcookie dir cookie count
      ≡ Readdir3res.resok es eof) where
  abbrev room : ℕ
  room = if ltb 4096 count then 4096 else count

  filled :
      run fs errno dir rcookie
        (start_of rcookie cookie)
        room
        resok_size
        0
        (drop (start_of rcookie cookie) names)
      ≡ Readdir3res.resok es eof
  unfolding read_dir
  filled = ground (arith, readable, answer)

  -- A page of a directory that can be listed holds, in order, the names that follow the place of
  -- the cookie, up to some point, and it has `eof` set exactly when no names are left after it.
  pub read_dir-names :
      (rest : List FilePath) × (drop (start_of rcookie cookie) names ≡ map (λ e. e.name) es ++ rest)
      × (is_empty rest ≡ eof)
  read_dir-names =
      fill-names fs errno dir rcookie (start_of rcookie cookie) room resok_size 0 _ es eof filled

  -- A page of a directory that can be listed takes, with its fixed part, no more bytes than the
  -- client asked for and no more than 4096, unless it consists of one entry, or of none.
  pub read_dir-size :
      (es ≡ [])
      ⊎ ((length es ≡ 1) ⊎ ((resok_size + bytes_of es ≤ count) × (resok_size + bytes_of es ≤ 4096)))
  read_dir-size =
      let sized =
        fill-size fs errno dir rcookie (start_of rcookie cookie) room resok_size 0 _ es eof
          filled in
      ground (arith, sized)

  -- A client that sends the cookie of an entry gets the page that starts right after this entry, as
  -- long as the places of the directory fit in 32 bits.
  pub read_dir-resumes :
      (k : ℕ) (e : Entry3)
      → get_elem? es k ≡ some e
      → start_of rcookie cookie + k + 1 < u32_mod
      → start_of rcookie e.cookie ≡ start_of rcookie cookie + k + 1
  read_dir-resumes k e at small =
      let start = start_of rcookie cookie in
      let made = fill-cookies fs errno dir rcookie start room resok_size 0 _ es eof k e filled at in
      let place : start + 0 + k ≡ start + k = omega arith in
      ap (start_of rcookie) (made ∙ ap (cookie_of rcookie) place)
      ∙ start_of-cookie_of rcookie (start + k) small
