-- ===== src/Attr/Mode.antt =====
-- src/attr.c: `permission`, which reduces a mode to the one permission that iRODS stores, and
-- `fileNameLastIndex`.
use nfsrods.Prelude.{ℕ, zero, suc, ◌/◌, ◌%◌, ◌==◌, ◌||◌, if◌then◌else◌, List, get_or, length}
use nfsrods.Fh.Handles.{slash}

-- The loop, for `n` more digits: `status` is what it has so far. The digits are the remainders
-- by 8, which the floating-point expressions compute exactly.
unfoldable pub permission_loop : ℕ → ℕ → ℕ → ℕ
permission_loop zero value status = status
permission_loop (suc n) value status =
    let p = value % 8 in
    let status' =
      if p == 5 || p == 4 || p == 1 then 1 else if p == 6 || p == 7 then 3 else status in
    let rest = permission_loop n (value / 8) status' in if p == 2 || p == 3 then 2 else rest

-- 0 for null, 1 for read, 2 for write, 3 for own.
unfoldable pub permission : ℕ → ℕ
unfolding permission_loop
permission value = permission_loop 3 value 0

-- The loop from `path[i]` down to `path[1]`; `path[strlen(path)]` is 0.
unfoldable pub last_slash : List ℕ → ℕ → ℕ
last_slash path zero = 0
last_slash path (suc i) =
    let rest = last_slash path i in if get_or path (suc i) 0 == slash then suc i else rest

unfoldable pub file_name_last_index : List ℕ → ℕ
unfolding last_slash
file_name_last_index path = last_slash path (length path)
