-- ===== src/Exports/Options.antt =====
-- src/Config/exports.y: the options of a host, and the hash of a path.
use Prim.Native.Nat.{bit_xor}
use nfsrods.Prelude.{
  ℕ, ◌+◌, ◌-◌, ◌*◌, ◌%◌, ◌^◌, ltb, if◌then◌else◌, List, [], ◌∷◌, take, bytes, str_eq, test_bit,
  set_bit,
}
use nfsrods.User.Ids.{opt_no_root_squash, opt_all_squash, opt_rw, opt_removable, opt_insecure}
use nfsrods.Exports.{EHost}

-- `x & ~(1 << k)`
abbrev pub clear_bit : ℕ → ℕ → ℕ
clear_bit x k = if test_bit x k then x - 2 ^ k else x

unfoldable pub add_option : List ℕ → ℕ → ℕ
add_option opt options =
    if str_eq opt (bytes "no_root_squash")
    then set_bit options opt_no_root_squash
    else if str_eq opt (bytes "root_squash")
    then clear_bit options opt_no_root_squash
    else if str_eq opt (bytes "all_squash")
    then set_bit options opt_all_squash
    else if str_eq opt (bytes "no_all_squash")
    then clear_bit options opt_all_squash
    else if str_eq opt (bytes "rw")
    then set_bit options opt_rw
    else if str_eq opt (bytes "ro")
    then clear_bit options opt_rw
    else if str_eq opt (bytes "removable")
    then set_bit options opt_removable
    else if str_eq opt (bytes "fixed")
    then clear_bit options opt_removable
    else if str_eq opt (bytes "insecure")
    then set_bit options opt_insecure
    else if str_eq opt (bytes "secure")
    then clear_bit options opt_insecure
    else options

-- A `char` that is turned into a 32-bit word: bytes from 128 are negative.
abbrev pub sign_extended : ℕ → ℕ
sign_extended b = if ltb b 128 then b else b + (2 ^ 32 - 256)

-- `fnv_32_prime` is 0x01000193.
unfoldable pub fnv1a_32 : List ℕ → ℕ → ℕ
fnv1a_32 [] hval = hval
fnv1a_32 (b ∷ str) hval = fnv1a_32 str ((bit_xor hval (sign_extended b) * 16777619) % 2 ^ 32)

-- `hval |= 0x80000000`
unfoldable pub get_free_fsid : List ℕ → ℕ
get_free_fsid path = set_bit (fnv1a_32 path 0) 31

abbrev pub password_maxlen : ℕ
password_maxlen = 64

-- `atoi` of the C library is a parameter, as a 32-bit word. The copy of the password ends at
-- PASSWORD_MAXLEN bytes.
unfoldable pub add_option_with_value : (List ℕ → ℕ) → List ℕ → List ℕ → EHost → EHost
add_option_with_value atoi opt val host =
    if str_eq opt (bytes "password")
    then record host {
      password = take password_maxlen val;
      password_hash = fnv1a_32 (take password_maxlen val) 0;
    }
    else if str_eq opt (bytes "anonuid")
    then record host { anonuid = atoi val }
    else if str_eq opt (bytes "anongid")
    then record host { anongid = atoi val }
    else host
