-- ===== src/Exports/Names.antt =====
-- src/Config/exports.y: `normpath`, for an export point that need not be there.
use nfsrods.Prelude.{ℕ, ◌==◌, ltb, Bool, false, ◌&&◌, if◌then◌else◌, List, [], ◌∷◌, length}
use nfsrods.Fh.Handles.{slash}

abbrev pub starts_slash : List ℕ → Bool
starts_slash [] = false
starts_slash (c ∷ cs) = c == slash

-- The loop: a slash that another one follows is skipped.
unfoldable pub single_slashes : List ℕ → List ℕ
single_slashes [] = []
single_slashes (c ∷ cs) =
    let rest = single_slashes cs in if c == slash && starts_slash cs then rest else c ∷ rest

-- Without the last byte, if that is a slash.
unfoldable pub without_slash : List ℕ → List ℕ
without_slash [] = []
without_slash (c ∷ []) = if c == slash then [] else c ∷ []
without_slash (c ∷ d ∷ cs) = c ∷ without_slash (d ∷ cs)

unfoldable pub normpath : List ℕ → List ℕ
unfolding single_slashes without_slash
normpath path = let n = single_slashes path in if ltb 1 (length n) then without_slash n else n
