-- ===== src/Readdir/Walk.antt =====
-- src/readdir.c: a client that reads a directory page by page.
use nfsrods.Prelude.{
  ℕ, zero, suc, ◌+◌, ◌-◌, ◌≤◌, ◌<◌, ◌≡◌, ◌≢◌, inl, inr, refl, ap, sym, ◌∙◌, ltb, Bool, true, false,
  ◌&&◌, if◌then◌else◌, List, [], ◌∷◌, ◌++◌, map, Option, none, some, length, length-append,
  length-map, length-drop, drop, get_elem?, arith, Bool-cases, Option-cases,
}
use nfsrods.Backend.{FilePath, FileSys, nfs_maxpathlen, u32_mod}
use nfsrods.Readdir.Page.{
  max_entries, resok_size, entry_size, name_size, Entry3, Readdir3res, path_of, cookie_of, start_of,
  fill, read_dir,
}
use nfsrods.Readdir.Laws.{is_empty, ResView, res_view, run, read_dir-names, read_dir-resumes}

abbrev last_cookie : List Entry3 → ℕ → ℕ
last_cookie [] cookie = cookie
last_cookie (e ∷ es) cookie = last_cookie es e.cookie

-- A client that asks for `count` bytes, and goes on from the last entry of a page until `eof`.
unfoldable pub walk : FileSys → (FilePath → ℕ) → ℕ → FilePath → ℕ → ℕ → ℕ → Option (List FilePath)
unfolding read_dir
walk fs errno rcookie dir count zero cookie = none
walk fs errno rcookie dir count (suc fuel) cookie =
    elim (read_dir fs errno false rcookie dir cookie count) [
      | Readdir3res.resfail status ↦ none
      | Readdir3res.resok es eof ↦
          let rest = walk fs errno rcookie dir count fuel (last_cookie es cookie) in
          if eof
          then some (map (λ e. e.name) es)
          else elim rest [ none ↦ none | some more ↦ some (map (λ e. e.name) es ++ more) ]
    ]

-- The names can be stat'ed, and their paths are short enough.
abbrev pub AllStat : FileSys → FilePath → List FilePath → Type 0
AllStat fs dir names =
    (i : ℕ) (name : FilePath)
    → get_elem? names i ≡ some name
    → (fs.lstat (path_of dir name) ≢ none) × (length dir + length name + 1 < nfs_maxpathlen)

module _ (fs : FileSys) (errno : FilePath → ℕ) (dir : FilePath) (rcookie start count : ℕ) where
  fill-succeeds :
      (size i : ℕ) (names : List FilePath)
      → AllStat fs dir names
      → (es : List Entry3) × (eof : Bool) × (run fs errno dir rcookie start count size i names
          ≡ Readdir3res.resok es eof)
  unfolding fill
  fill-succeeds size i [] all = ([], true, refl)
  fill-succeeds size i (name ∷ names) all =
      let (there, short) = all 0 name refl in
      let (more, eof, e) =
        fill-succeeds (size + entry_size + name_size name) (suc i) names
          (λ j x at. all (suc j) x at) in
      elim (Option-cases (fs.lstat (path_of dir name))) [
        | inl missing ↦ absurd (there missing)
        | inr (buf, at) ↦ elim (Bool-cases (ltb size count && ltb i max_entries)) [
          | inr stop ↦ ([], false, ground arith)
          | inl on ↦ elim (Bool-cases (ltb count (size + entry_size + name_size name) && ltb 0 i)) [
            | inl over ↦ ([], false, ground arith)
            | inr fits ↦ (
              record { fileid = buf.ino; name = name; cookie = cookie_of rcookie (start + i) }
                  ∷ more,
              eof,
              ground arith,
            )
          ]
        ]
      ]

  fill-advances :
      (size : ℕ) (name : FilePath) (names : List FilePath) (eof : Bool)
      → size < count
      → run fs errno dir rcookie start count size 0 (name ∷ names) ≢ Readdir3res.resok [] eof
  unfolding fill
  fill-advances size name names eof more h =
      elim (res_view
        (run fs errno dir rcookie start count (size + entry_size + name_size name) 1 names)) [
          | ResView.fail status e ↦ ground (arith, Option-cases (fs.lstat (path_of dir name)))
          | ResView.page es eof' e ↦ ground (arith, Option-cases (fs.lstat (path_of dir name)))
        ]

drop-append : (xs ys : List FilePath) → drop (length xs) (xs ++ ys) ≡ ys
drop-append [] ys = refl
drop-append (x ∷ xs) ys = drop-append xs ys

drop-drop : (m n : ℕ) (xs : List FilePath) → drop (m + n) xs ≡ drop n (drop m xs)
drop-drop zero n xs = let same : 0 + n ≡ n = omega arith in ap (λ k. drop k xs) same
drop-drop (suc m) n [] = drop_nil (suc m + n) ∙ sym (drop_nil n)
  where
    drop_nil : (k : ℕ) → drop {A = FilePath} k [] ≡ []
    drop_nil zero = refl
    drop_nil (suc k) = refl
drop-drop (suc m) n (x ∷ xs) =
    let next : suc m + n ≡ suc (m + n) = omega arith in rw next (drop-drop m n xs)

get_elem?-drop :
    (m : ℕ) (xs : List FilePath) (i : ℕ) → get_elem? (drop m xs) i ≡ get_elem? xs (m + i)
get_elem?-drop zero xs i = let same : i ≡ 0 + i = omega arith in ap (get_elem? xs) same
get_elem?-drop (suc m) [] i = refl
get_elem?-drop (suc m) (x ∷ xs) i =
    let next : suc m + i ≡ suc (m + i) = omega arith in rw next (get_elem?-drop m xs i)

append-nil : (xs : List FilePath) → xs ++ [] ≡ xs
append-nil [] = refl
append-nil (x ∷ xs) = ap (λ ys. x ∷ ys) (append-nil xs)

is_empty→≡ : (xs : List FilePath) → is_empty xs ≡ true → xs ≡ []
is_empty→≡ xs h = ground arith

not_read :
    (es : List Entry3) (rest : List FilePath)
    → map (λ e. e.name) es ++ rest ≡ []
    → is_empty rest ≢ false
not_read [] rest nothing left = ground arith
not_read (x ∷ es) rest nothing left = ground arith

nonempty : (es : List Entry3) → es ≢ [] → 0 < length es
nonempty [] h = absurd (h refl)
nonempty (x ∷ es) h = omega arith

-- The last entry of a page that is not empty.
last_entry :
    (e : Entry3) (es : List Entry3) (cookie : ℕ)
    → (l : Entry3) × (get_elem? (e ∷ es) (length es) ≡ some l)
      × (last_cookie (e ∷ es) cookie ≡ l.cookie)
last_entry e [] cookie = (e, refl, refl)
last_entry e (x ∷ es) cookie = last_entry x es cookie

module _ (fs : FileSys) (errno : FilePath → ℕ) (rcookie : ℕ) (dir : FilePath) (count : ℕ)
    (names : List FilePath) (readable : fs.list_dir dir ≡ some names) (all : AllStat fs dir names)
    (room : resok_size < count) (small : length names + 1 < u32_mod) where
  -- A page of this directory, of a client at any place.
  page_of :
      (cookie : ℕ)
      → (es : List Entry3) × (eof : Bool) × (read_dir fs errno false rcookie dir cookie count
          ≡ Readdir3res.resok es eof)
        × ((drop (start_of rcookie cookie) names ≢ []) → es ≢ [])
  unfolding read_dir
  page_of cookie =
      let start = start_of rcookie cookie in
      let most = if ltb 4096 count then 4096 else count in
      let (es, eof, e) =
        fill-succeeds fs errno dir rcookie start most resok_size 0 (drop start names)
          (λ i name at. all (start + i) name (sym (get_elem?-drop start names i) ∙ at)) in
      (
        es,
        eof,
        ground (arith, readable, e),
        λ left. advance start most (drop start names) es eof (ground (arith, room)) e left,
      )
    where
      advance :
          (start most : ℕ) (left : List FilePath) (es : List Entry3) (eof : Bool)
          → resok_size < most
          → run fs errno dir rcookie start most resok_size 0 left ≡ Readdir3res.resok es eof
          → left ≢ []
          → es ≢ []
      advance start most [] es eof fits e some_left stuck = some_left refl
      advance start most (name ∷ left) es eof fits e some_left stuck =
          fill-advances fs errno dir rcookie start most resok_size name left eof fits
            (e ∙ ap (λ l. Readdir3res.resok l eof) stuck)

  -- After a page that is not empty, the client stands at the names that are left.
  resume :
      (cookie : ℕ) (es : List Entry3) (eof : Bool) (rest : List FilePath)
      → read_dir fs errno false rcookie dir cookie count ≡ Readdir3res.resok es eof
      → start_of rcookie cookie ≤ length names
      → drop (start_of rcookie cookie) names ≡ map (λ e. e.name) es ++ rest
      → es ≢ []
      → (start_of rcookie (last_cookie es cookie) ≡ start_of rcookie cookie + length es)
        × (start_of rcookie cookie + length es ≤ length names)
        × (drop (start_of rcookie cookie + length es) names ≡ rest)
  resume cookie [] eof rest answer inside split some_left = absurd (some_left refl)
  resume cookie (x ∷ es) eof rest answer inside split some_left =
      let start = start_of rcookie cookie in
      let shown = map (λ (e : Entry3). e.name) (x ∷ es) in
      let counted : length names - start ≡ length (x ∷ es) + length rest = omega (
        arith,
        ap length split,
        length-drop start names,
        length-append shown rest,
        length-map (x ∷ es) (λ (e : Entry3). e.name),
      ) in
      let (l, at, last) = last_entry x es cookie in
      let there =
        read_dir-resumes fs errno false rcookie dir names readable cookie count (x ∷ es) eof answer
          (length es) l at (omega (arith, counted)) in
      let tail : drop (length (x ∷ es)) (shown ++ rest) ≡ rest =
        ap (λ k. drop k (shown ++ rest)) (sym (length-map (x ∷ es) (λ (e : Entry3). e.name)))
        ∙ drop-append shown rest in
      (
        ap (start_of rcookie) last ∙ there ∙ omega arith,
        omega (arith, counted),
        drop-drop start (length (x ∷ es)) names ∙ ap (drop (length (x ∷ es))) split ∙ tail,
      )

  -- From any place, the rest of the names.
  walk-from :
      (fuel cookie : ℕ)
      → start_of rcookie cookie ≤ length names
      → length names - start_of rcookie cookie < fuel
      → walk fs errno rcookie dir count fuel cookie ≡ some (drop (start_of rcookie cookie) names)
  unfolding walk
  walk-from zero cookie inside enough = absurd (omega arith)
  walk-from (suc fuel) cookie inside enough =
      let (es, eof, e, moves) = page_of cookie in
      let (rest, split, end) =
        read_dir-names fs errno false rcookie dir names readable cookie count es eof e in
      elim (Bool-cases eof) [
        | inl done ↦
            let all_read : rest ≡ [] = is_empty→≡ rest (end ∙ done) in
            let whole = split ∙ ap (λ r. map (λ e. e.name) es ++ r) all_read ∙ append-nil _ in
            rw (e, done, walk) (ap some (sym whole))
        | inr more ↦
            let left : drop (start_of rcookie cookie) names ≢ [] =
              λ nothing. not_read es rest (sym split ∙ nothing) (end ∙ more) in
            let (place, inside', tail) = resume cookie es eof rest e inside split (moves left) in
            let onward =
              walk-from fuel (last_cookie es cookie) (omega (arith, place, inside'))
                (omega (arith, place, inside', nonempty es (moves left)))
              ∙ ap (λ k. some (drop k names)) place
              ∙ ap some tail in
            rw (e, more, onward, walk) (ap some (sym split))
      ]

  start_zero : start_of rcookie 0 ≡ 0
  unfolding start_of
  start_zero = ground arith

  -- A client that starts at the beginning of a directory that can be listed, asks for more than the
  -- fixed part of a reply, and goes on page by page, is given every name once, in the order of the
  -- listing, after at most one call for each name and one more; the names can be stat'ed, their
  -- paths are short enough, and the places of the directory fit in 32 bits.
  pub walk-all : walk fs errno rcookie dir count (length names + 1) 0 ≡ some names
  walk-all =
      walk-from (length names + 1) 0 (omega (arith, start_zero)) (omega (arith, start_zero))
      ∙ ap (λ k. some (drop k names)) start_zero
