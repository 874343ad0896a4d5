-- ===== src/Tests/Wire.antt =====
-- src/xdr.c: the RPC library's coding of the standard, in words of four bytes, the highest first.
use nfsrods.Prelude.{
  ℕ, zero, suc, ◌+◌, ◌-◌, ◌*◌, ◌/◌, ◌%◌, ◌^◌, ◌≤◌, ◌<◌, ◌≡◌, refl, sym, ap, ◌∙◌, ◌==◌, ltb, Bool,
  true, false, if◌then◌else◌, List, [], ◌∷◌, ◌++◌, Option, none, some, length, length-append, take,
  drop, replicate, arith, bytes,
}
use mathlib.Core.List.{append_assoc}
use nfsrods.Mount.Table.{Mountbody}
use nfsrods.Xdr.Writes.{Write3args, xdr_write3args}
use nfsrods.Xdr.Mounts.{xdr_mountlist}
use nfsrods.Xdr.Laws.{IsWrite, xdr_write3args_round_trip, xdr_mountlist_round_trip, AreBodies}
use nfsrods.Xdr.Codec.{Coded, then_read, after_reading, both_written, nothing}
use nfsrods.Xdr.Codec.Laws.{tagged, nothing-Lawful}
use nfsrods.Xdr.Codec.Library.{Xdr, AreInts}

abbrev word : ℕ → List ℕ
word v = (v / 2 ^ 24) % 256 ∷ (v / 2 ^ 16) % 256 ∷ (v / 2 ^ 8) % 256 ∷ v % 256 ∷ []

abbrev read_word : List ℕ → Option (ℕ × List ℕ)
read_word [] = none
read_word (a ∷ []) = none
read_word (a ∷ b ∷ []) = none
read_word (a ∷ b ∷ c ∷ []) = none
read_word (a ∷ b ∷ c ∷ d ∷ rest) = some (a * 2 ^ 24 + b * 2 ^ 16 + c * 2 ^ 8 + d, rest)

abbrev put_word : ℕ → Option (List ℕ)
put_word v = some (word v)

word_again :
    (v : ℕ)
    → v < 2 ^ 32
    → (v / 2 ^ 24) % 256 * 2 ^ 24
        + (v / 2 ^ 16) % 256 * 2 ^ 16
        + (v / 2 ^ 8) % 256 * 2 ^ 8
        + v % 256
      ≡ v
word_again v h = omega arith

word-Coded : (v : ℕ) → v < 2 ^ 32 → Coded put_word read_word v
word-Coded v h = record {
  wire = word v;
  written = refl;
  aligned = refl;
  read_back = λ rest. ap (λ n. some (n, rest)) (word_again v h);
}

abbrev bit_of : Bool → ℕ
bit_of b = if b then 1 else 0

abbrev read_bool : List ℕ → Option (Bool × List ℕ)
read_bool s = after_reading (λ v. if v == 0 then false else true) (read_word s)

bool-Coded : (b : Bool) → Coded (λ b. put_word (bit_of b)) read_bool b
bool-Coded true = record { wire = word 1; written = refl; aligned = refl; read_back = λ rest. refl }
bool-Coded false = record {
  wire = word 0;
  written = refl;
  aligned = refl;
  read_back = λ rest. refl;
}

abbrev put_double : ℕ → Option (List ℕ)
put_double v = both_written (put_word (v / 2 ^ 32)) (put_word (v % 2 ^ 32))

abbrev read_double : List ℕ → Option (ℕ × List ℕ)
read_double s =
    then_read (read_word s) (λ h rest. after_reading (λ l. h * 2 ^ 32 + l) (read_word rest))

double-Coded : (v : ℕ) → v < 2 ^ 64 → Coded put_double read_double v
double-Coded v h =
    let m =
      tagged (word-Coded (v / 2 ^ 32) (omega arith)) (word-Coded (v % 2 ^ 32) (omega arith))
        (λ l. v / 2 ^ 32 * 2 ^ 32 + l) (λ n. put_double v)
        (λ h rest. after_reading (λ l. h * 2 ^ 32 + l) (read_word rest)) refl (λ s. refl) in
    let whole : v / 2 ^ 32 * 2 ^ 32 + v % 2 ^ 32 ≡ v = omega arith in
    record {
      wire = m.wire;
      written = m.written;
      aligned = m.aligned;
      read_back = λ rest. m.read_back rest ∙ ap (λ n. some (n, rest)) whole;
    }

-- The bytes that fill up the last word.
abbrev padding : ℕ → List ℕ
padding n = replicate ((4 - n % 4) % 4) 0

abbrev put_opaque : ℕ → List ℕ → Option (List ℕ)
put_opaque n bs = if length bs == n then some (bs ++ padding n) else none

abbrev read_opaque : ℕ → List ℕ → Option (List ℕ × List ℕ)
read_opaque n s =
    if ltb (length s) (n + (4 - n % 4) % 4)
    then none
    else some (take n s, drop (n + (4 - n % 4) % 4) s)

length-replicate : (n a : ℕ) → length (replicate n a) ≡ n
length-replicate zero a = refl
length-replicate (suc n) a = ap suc (length-replicate n a)

take-append : (xs ys : List ℕ) → take (length xs) (xs ++ ys) ≡ xs
take-append [] ys = refl
take-append (x ∷ xs) ys = ap (λ r. x ∷ r) (take-append xs ys)

drop-append : (xs ys : List ℕ) → drop (length xs) (xs ++ ys) ≡ ys
drop-append [] ys = refl
drop-append (x ∷ xs) ys = drop-append xs ys

opaque-Coded : (n : ℕ) (bs : List ℕ) → length bs ≡ n → Coded (put_opaque n) (read_opaque n) bs
opaque-Coded n bs h =
    let size : length (bs ++ padding n) ≡ n + (4 - n % 4) % 4 =
      omega (arith, length-append bs (padding n), length-replicate ((4 - n % 4) % 4) 0, h) in
    let is : (length bs == n) ≡ true = ground (arith, h) in
    record {
      wire = bs ++ padding n;
      written = rw is;
      aligned = rw size (omega arith);
      read_back = λ rest.
          let long : ltb (length ((bs ++ padding n) ++ rest)) (n + (4 - n % 4) % 4) ≡ false =
            ground (arith, length-append (bs ++ padding n) rest, size) in
          let first : take n ((bs ++ padding n) ++ rest) ≡ bs =
            ap (λ k. take k ((bs ++ padding n) ++ rest)) (sym h)
            ∙ ap (take (length bs)) (append_assoc bs (padding n) rest)
            ∙ take-append bs (padding n ++ rest) in
          let second : drop (n + (4 - n % 4) % 4) ((bs ++ padding n) ++ rest) ≡ rest =
            ap (λ k. drop k ((bs ++ padding n) ++ rest)) (sym size)
            ∙ drop-append (bs ++ padding n) rest in
          rw (long, first, second);
    }

abbrev put_counted : ℕ → List ℕ → Option (List ℕ)
put_counted n bs =
    if ltb n (length bs)
    then none
    else both_written (put_word (length bs)) (put_opaque (length bs) bs)

abbrev read_counted : ℕ → List ℕ → Option (List ℕ × List ℕ)
read_counted n s =
    then_read (read_word s)
      (λ size rest. if ltb n size then none else after_reading (λ bs. bs) (read_opaque size rest))

counted-Coded :
    (n : ℕ) (bs : List ℕ) → n < 2 ^ 32 → length bs ≤ n → Coded (put_counted n) (read_counted n) bs
counted-Coded n bs small fits =
    let short : ltb n (length bs) ≡ false = ground (arith, fits) in
    tagged (word-Coded (length bs) (omega (arith, small, fits))) (opaque-Coded (length bs) bs refl)
      (λ b. b) (put_counted n)
      (λ size rest. if ltb n size then none else after_reading (λ b. b) (read_opaque size rest))
      (rw short) (λ s. rw short)

counted_long : (n : ℕ) (bs : List ℕ) → n < length bs → put_counted n bs ≡ none
counted_long n bs long = let e : ltb n (length bs) ≡ true = ground (arith, long) in rw e

abbrev put_words : List ℕ → Option (List ℕ)
put_words [] = some []
put_words (v ∷ vs) = both_written (put_word v) (put_words vs)

abbrev read_words : ℕ → List ℕ → Option (List ℕ × List ℕ)
read_words zero s = some ([], s)
read_words (suc n) s =
    then_read (read_word s) (λ v rest. after_reading (λ vs. v ∷ vs) (read_words n rest))

words-Coded : (vs : List ℕ) → AreInts vs → Coded put_words (read_words (length vs)) vs
words-Coded [] are = record { wire = []; written = refl; aligned = refl; read_back = λ rest. refl }
words-Coded (v ∷ vs) (small, are) =
    tagged (word-Coded v (omega (arith, small))) (words-Coded vs are) (λ r. v ∷ r) put_words
      (λ u rest. after_reading (λ r. u ∷ r) (read_words (length vs) rest)) refl (λ s. refl)

abbrev put_array : ℕ → List ℕ → Option (List ℕ)
put_array n vs =
    if ltb n (length vs) then none else both_written (put_word (length vs)) (put_words vs)

abbrev read_array : ℕ → List ℕ → Option (List ℕ × List ℕ)
read_array n s =
    then_read (read_word s)
      (λ size rest. if ltb n size then none else after_reading (λ r. r) (read_words size rest))

array-Coded :
    (n : ℕ) (vs : List ℕ)
    → n < 2 ^ 32
    → length vs ≤ n
    → AreInts vs
    → Coded (put_array n) (read_array n) vs
array-Coded n vs small fits are =
    let short : ltb n (length vs) ≡ false = ground (arith, fits) in
    tagged (word-Coded (length vs) (omega (arith, small, fits))) (words-Coded vs are) (λ r. r)
      (put_array n)
      (λ size rest. if ltb n size then none else after_reading (λ r. r) (read_words size rest))
      (rw short) (λ s. rw short)

module _ {A : Type 0} (put : A → Option (List ℕ)) (get : List ℕ → Option (A × List ℕ)) where
  abbrev put_pointer : Option A → Option (List ℕ)
  put_pointer none = both_written (put_word 0) (some [])
  put_pointer (some a) = both_written (put_word 1) (put a)

  abbrev pointed : Bool → List ℕ → Option (Option A × List ℕ)
  pointed follows rest =
      if follows
      then after_reading some (get rest)
      else after_reading (λ u. none) (nothing.get rest)

  abbrev read_pointer : List ℕ → Option (Option A × List ℕ)
  read_pointer s = then_read (read_bool s) pointed

  null-Coded : Coded put_pointer read_pointer none
  null-Coded =
      tagged (bool-Coded false) (nothing-Lawful tt tt) (λ u. none) put_pointer pointed refl
        (λ s. refl)

  pointed-Coded : (a : A) → Coded put get a → Coded put_pointer read_pointer (some a)
  pointed-Coded a m = tagged (bool-Coded true) m some put_pointer pointed refl (λ s. refl)

abbrev standard : Xdr
standard = record {
  put_bool = λ b. put_word (bit_of b);
  get_bool = read_bool;
  put_enum = put_word;
  get_enum = read_word;
  put_u_long = put_word;
  get_u_long = read_word;
  put_uint64_t = put_double;
  get_uint64_t = read_double;
  put_opaque = put_opaque;
  get_opaque = read_opaque;
  put_bytes = put_counted;
  get_bytes = read_counted;
  put_string = put_counted;
  get_string = read_counted;
  put_int_array = put_array;
  get_int_array = read_array;
  put_pointer = λ put. put_pointer put (λ s. none);
  get_pointer = λ get. read_pointer (λ a. none) get;
  bool_coded = bool-Coded;
  enum_coded = λ v h. word-Coded v (omega (arith, h));
  u_long_coded = word-Coded;
  uint64_t_coded = double-Coded;
  opaque_coded = λ n bs h are. opaque-Coded n bs h;
  bytes_coded = λ n bs small fits are. counted-Coded n bs small fits;
  string_coded = λ n bs small fits are. counted-Coded n bs small fits;
  int_array_coded = array-Coded;
  null_coded = λ put get. null-Coded put get;
  pointed_coded = λ put get a m. pointed-Coded put get a m;
  bytes_long = counted_long;
  string_long = counted_long;
}

abbrev hello : Write3args
hello = record {
  file = 1 ∷ 2 ∷ 3 ∷ [];
  offset = 10;
  count = 2;
  stable = 0;
  data_val = 104 ∷ 105 ∷ [];
}

hello-IsWrite : IsWrite hello
hello-IsWrite = record {
  file = omega arith;
  offset = omega arith;
  count = omega arith;
  stable = omega arith;
  data_val = omega arith;
}

xdr_write3args_round_trip_example :
    (wire : List ℕ) × (((xdr_write3args standard).put hello ≡ some wire)
      × ((length wire % 4 ≡ 0)
          × ((xdr_write3args standard).get (wire ++ (7 ∷ [])) ≡ some (hello, 7 ∷ []))))
xdr_write3args_round_trip_example = xdr_write3args_round_trip standard hello (7 ∷ []) hello-IsWrite

abbrev bodies : List Mountbody
bodies =
    record { hostname = bytes "a"; directory = bytes "/x" }
    ∷ record { hostname = bytes "b"; directory = bytes "/" }
    ∷ []

bodies-AreBodies : AreBodies bodies
bodies-AreBodies = (
  (omega arith, (omega arith, (omega arith, tt))),
  (
    (omega arith, (omega arith, (omega arith, (omega arith, (omega arith, tt))))),
    (
      (omega arith, (omega arith, (omega arith, tt))),
      ((omega arith, (omega arith, (omega arith, tt))), tt),
    ),
  ),
)

xdr_mountlist_round_trip_example :
    (wire : List ℕ) × (((xdr_mountlist standard 2).put bodies ≡ some wire)
      × ((length wire % 4 ≡ 0)
          × ((xdr_mountlist standard 2).get (wire ++ (7 ∷ [])) ≡ some (bodies, 7 ∷ []))))
xdr_mountlist_round_trip_example =
    xdr_mountlist_round_trip standard 2 bodies (7 ∷ []) (omega arith) bodies-AreBodies
