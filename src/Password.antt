-- ===== src/Password.antt =====
-- src/password.c: the arguments of the mount commands, and digests as text.
pub mod Laws
use nfsrods.Prelude.{
  ℕ, ◌+◌, ◌-◌, ◌/◌, ◌%◌, ◌==◌, leb, if◌then◌else◌, List, [], ◌∷◌, length, take, drop,
}
use nfsrods.Fh.Handles.{slash}

-- '0' is 48 and 'a' is 97.
unfoldable pub nibble_as_hexchar : ℕ → ℕ
nibble_as_hexchar c = if leb c 9 then c + 48 else c - 10 + 97

-- The loop, for the bytes that are left: the first four bits, then the next four.
unfoldable pub hexify : List ℕ → List ℕ
unfolding nibble_as_hexchar
hexify [] = []
hexify (d ∷ digest) =
    nibble_as_hexchar ((d / 16) % 16) ∷ (nibble_as_hexchar (d % 16) ∷ hexify digest)

-- `strchr(arg, '/')` and the zero that is put there.
unfoldable pub until_slash : List ℕ → List ℕ
until_slash [] = []
until_slash (c ∷ cs) = let rest = until_slash cs in if c == slash then [] else c ∷ rest

-- `mnt_cmd_argument`: the argument and the advanced path.
unfoldable pub mnt_cmd_argument : List ℕ → List ℕ → ℕ → List ℕ × List ℕ
unfolding until_slash
mnt_cmd_argument dpath cmd maxlen =
    let after = drop (length cmd) dpath in
    let arg = until_slash (take maxlen after) in (arg, drop (length arg) after)
