-- ===== src/Xdr/Codec/Library.antt =====
-- The functions of the RPC library that src/xdr.c calls, as an interface: what each writes and reads,
-- and the documented behaviour that the file relies on: a value in range is written in whole words
-- and read back, whatever follows it on the stream.
use nfsrods.Prelude.{ℕ, ◌^◌, ◌≤◌, ◌<◌, ◌≡◌, Bool, List, Option, none, some, length, [], ◌∷◌}
use nfsrods.Xdr.Codec.{Coded}

abbrev pub IsBytes : List ℕ → Type 0
IsBytes [] = Unit {0}
IsBytes (b ∷ bs) = (b < 256) × IsBytes bs

-- The bytes of a C string, without the zero that ends it.
abbrev pub IsString : List ℕ → Type 0
IsString [] = Unit {0}
IsString (b ∷ bs) = (0 < b) × ((b < 256) × IsString bs)

abbrev pub AreInts : List ℕ → Type 0
AreInts [] = Unit {0}
AreInts (n ∷ ns) = (n < 2 ^ 31) × AreInts ns

-- `xdr_pointer` and `xdr_array` take the function that codes the object; a null pointer is none.
pub record Xdr : Type 1 where
  pub put_bool : Bool → Option (List ℕ)
  pub get_bool : List ℕ → Option (Bool × List ℕ)
  pub put_enum : ℕ → Option (List ℕ)
  pub get_enum : List ℕ → Option (ℕ × List ℕ)
  pub put_u_long : ℕ → Option (List ℕ)
  pub get_u_long : List ℕ → Option (ℕ × List ℕ)
  pub put_uint64_t : ℕ → Option (List ℕ)
  pub get_uint64_t : List ℕ → Option (ℕ × List ℕ)
  pub put_opaque : ℕ → List ℕ → Option (List ℕ)
  pub get_opaque : ℕ → List ℕ → Option (List ℕ × List ℕ)
  pub put_bytes : ℕ → List ℕ → Option (List ℕ)
  pub get_bytes : ℕ → List ℕ → Option (List ℕ × List ℕ)
  pub put_string : ℕ → List ℕ → Option (List ℕ)
  pub get_string : ℕ → List ℕ → Option (List ℕ × List ℕ)
  pub put_int_array : ℕ → List ℕ → Option (List ℕ)
  pub get_int_array : ℕ → List ℕ → Option (List ℕ × List ℕ)
  pub put_pointer : {A : Type 0} → (A → Option (List ℕ)) → Option A → Option (List ℕ)
  pub get_pointer :
      {A : Type 0} → (List ℕ → Option (A × List ℕ)) → List ℕ → Option (Option A × List ℕ)
  pub bool_coded : (b : Bool) → Coded put_bool get_bool b
  pub enum_coded : (v : ℕ) → v < 2 ^ 31 → Coded put_enum get_enum v
  pub u_long_coded : (v : ℕ) → v < 2 ^ 32 → Coded put_u_long get_u_long v
  pub uint64_t_coded : (v : ℕ) → v < 2 ^ 64 → Coded put_uint64_t get_uint64_t v
  pub opaque_coded :
      (n : ℕ) (bs : List ℕ) → length bs ≡ n → IsBytes bs → Coded (put_opaque n) (get_opaque n) bs
  pub bytes_coded :
      (n : ℕ) (bs : List ℕ)
      → n < 2 ^ 32
      → length bs ≤ n
      → IsBytes bs
      → Coded (put_bytes n) (get_bytes n) bs
  pub string_coded :
      (n : ℕ) (bs : List ℕ)
      → n < 2 ^ 32
      → length bs ≤ n
      → IsString bs
      → Coded (put_string n) (get_string n) bs
  pub int_array_coded :
      (n : ℕ) (ns : List ℕ)
      → n < 2 ^ 32
      → length ns ≤ n
      → AreInts ns
      → Coded (put_int_array n) (get_int_array n) ns
  pub null_coded :
      {A : Type 0} (put : A → Option (List ℕ)) (get : List ℕ → Option (A × List ℕ))
      → Coded (put_pointer put) (get_pointer get) none
  pub pointed_coded :
      {A : Type 0} (put : A → Option (List ℕ)) (get : List ℕ → Option (A × List ℕ)) (a : A)
      → Coded put get a
      → Coded (put_pointer put) (get_pointer get) (some a)
  -- A counted object that is longer than its bound is refused.
  pub bytes_long : (n : ℕ) (bs : List ℕ) → n < length bs → put_bytes n bs ≡ none
  pub string_long : (n : ℕ) (bs : List ℕ) → n < length bs → put_string n bs ≡ none
