-- ===== src/Tests/Commands.antt =====
-- Runs of the model of src/password.c.
use nfsrods.Prelude.{ℕ, zero, suc, ◌≡◌, List, [], ◌∷◌, arith}
use nfsrods.Password.{hexify}
use nfsrods.Password.Laws.{AllBytes, read_hex, read_hex-hexify}

abbrev digest : List ℕ
digest = 255 ∷ (10 ∷ [])

digest-AllBytes : AllBytes digest
digest-AllBytes zero d at = ground arith
digest-AllBytes (suc zero) d at = ground arith
digest-AllBytes (suc (suc i)) d at = absurd (ground arith)

read_hex-hexify_example : read_hex (hexify digest) ≡ digest
read_hex-hexify_example = read_hex-hexify digest digest-AllBytes
