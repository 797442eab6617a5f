-- ===== src/Wire/Kinds/Laws.antt =====
-- Round trips of the reflective codec of pkg/protorun/wirecodec.go.
use protorun.Prelude.{
  ℕ, zero, suc, ◌+◌, ◌*◌, ◌/◌, ◌^◌, ◌<◌, ◌≤◌, ◌≡◌, refl, ap, ◌∙◌, sym, false, List, [], ◌∷◌, ◌++◌,
  append_assoc, append-nil, Option, none, some, length, length-append, take, drop,
  take-append_length, drop-append_length, ltb, arith, All,
}
use protorun.Wire.{Bytes}
use native.Mathlib.Nat.{suc-mul, le-div_iff_mul-le}
use protorun.Wire.Laws.{le_decode-le_encode, length-le_encode, is_set-bool_byte}
use protorun.Wire.Kinds.{
  Scalar, Kind, Fields, ScalarValue, Value, Values, write_count, scalar_size, put_scalar, scalar_of,
  get_scalar, read_raw, max_zero_size_count, count_of, read_count, min_size, min_sizes, encode_all,
  decode_all, encode, encode_fields, decode_present, decode, decode_fields, marshal, unmarshal,
}
use protorun.Wire.Kinds.Varint.{uvarint-write_count, write_count-positive}

-- Values that a Go program can hold: numbers of their size, and lengths of 64 bits, of elements
-- without a byte at most 2 ^ 20.
abbrev pub FitsScalar : (s : Scalar) → ScalarValue s → Type 0
FitsScalar Scalar.boolean b = Unit
FitsScalar (Scalar.bits w) n = n < 256 ^ w

abbrev mutual
  pub Fits : (k : Kind) → Value k → Type 0
  Fits (Kind.scalar s) v = FitsScalar s v
  Fits Kind.raw v = length v < 2 ^ 64
  Fits (Kind.slice k) v =
      (length v < 2 ^ 64) × (min_size k ≡ 0 → length v ≤ max_zero_size_count) × All (Fits k) v
  Fits (Kind.array s n) v = (length v ≡ n) × All (FitsScalar s) v
  Fits (Kind.struct fs) v = FitsAll fs v
  Fits (Kind.pointer fs) none = Unit
  Fits (Kind.pointer fs) (some v) = FitsAll fs v

  pub FitsAll : (fs : Fields) → Values fs → Type 0
  FitsAll Fields.no_fields v = Unit
  FitsAll (Fields.field k fs) (v, values) = Fits k v × FitsAll fs values

length-put_scalar : (s : Scalar) (v : ScalarValue s) → length (put_scalar s v) ≡ scalar_size s
unfolding put_scalar scalar_size
length-put_scalar Scalar.boolean v = refl
length-put_scalar (Scalar.bits w) v = length-le_encode w v

scalar_of-put_scalar :
    (s : Scalar) (v : ScalarValue s) → FitsScalar s v → scalar_of s (put_scalar s v) ≡ v
unfolding scalar_of put_scalar
scalar_of-put_scalar Scalar.boolean v h = is_set-bool_byte v
scalar_of-put_scalar (Scalar.bits w) v h = le_decode-le_encode w v h

get_scalar-put_scalar :
    (s : Scalar) (v : ScalarValue s) (rest : Bytes)
    → FitsScalar s v
    → get_scalar s (put_scalar s v ++ rest) ≡ some (v, rest)
unfolding get_scalar
get_scalar-put_scalar s v rest h =
    let bytes : Bytes = put_scalar s v in
    let e : length bytes ≡ scalar_size s = length-put_scalar s v in
    let t : take (scalar_size s) (bytes ++ rest) ≡ bytes =
      ap (λ n. take n (bytes ++ rest)) (sym e) ∙ take-append_length bytes rest in
    let d : drop (scalar_size s) (bytes ++ rest) ≡ rest =
      ap (λ n. drop n (bytes ++ rest)) (sym e) ∙ drop-append_length bytes rest in
    let short : ltb (length (bytes ++ rest)) (scalar_size s) ≡ false =
      ground (arith, length-append bytes rest, e) in
    rw (get_scalar, short, t, d, scalar_of-put_scalar s v h) refl

read_raw-write :
    (v rest : Bytes)
    → length v < 2 ^ 64
    → read_raw ((write_count (length v) ++ v) ++ rest) ≡ some (v, rest)
unfolding read_raw
read_raw-write v rest h =
    let short : ltb (length (v ++ rest)) (length v) ≡ false =
      ground (arith, length-append v rest) in
    rw
      (
        read_raw,
        append_assoc (write_count (length v)) v rest,
        uvarint-write_count (length v) (v ++ rest) h,
        short,
        take-append_length v rest,
        drop-append_length v rest,
      )
      refl

decode_all-encode_all :
    {A : Type 0} (enc : A → Bytes) (dec : Bytes → Option (A × Bytes)) (P : A → Type 0)
    → ((v : A) (rest : Bytes) → P v → dec (enc v ++ rest) ≡ some (v, rest))
    → (values : List A) (rest : Bytes) → All P values
    → decode_all dec (length values) (encode_all enc values ++ rest) ≡ some (values, rest)
unfolding decode_all encode_all
decode_all-encode_all enc dec P h [] rest a = refl
decode_all-encode_all enc dec P h (v ∷ values) rest (a, more) =
    rw
      (
        append_assoc (enc v) (encode_all enc values) rest,
        h v (encode_all enc values ++ rest) a,
        decode_all-encode_all enc dec P h values rest more,
      )
      refl

encode_all-length :
    {A : Type 0} (enc : A → Bytes) (P : A → Type 0) (m : ℕ)
    → ((v : A) → P v → m ≤ length (enc v))
    → (values : List A) → All P values
    → length values * m ≤ length (encode_all enc values)
unfolding encode_all
encode_all-length enc P m h [] a = omega arith
encode_all-length enc P m h (v ∷ values) (a, more) =
    let e = encode_all-length enc P m h values more in
    let f = h v a in
    let g : suc (length values) * m ≡ length values * m + m = suc-mul (length values) m in
    omega (arith, length-append (enc v) (encode_all enc values))

mutual
  unfolding min_size encode

  min_size-encode : (k : Kind) (v : Value k) → Fits k v → min_size k ≤ length (encode k v)
  min_size-encode (Kind.scalar s) v h = omega (arith, length-put_scalar s v)
  min_size-encode Kind.raw v h =
      omega (arith, length-append (write_count (length v)) v, write_count-positive 9 (length v))
  min_size-encode (Kind.slice k) v h = omega (
    arith,
    length-append (write_count (length v)) (encode_all (encode k) v),
    write_count-positive 9 (length v),
  )
  min_size-encode (Kind.array s n) v (e, h) =
      let m =
        encode_all-length (put_scalar s) (FitsScalar s) (scalar_size s)
          (λ x _. omega (arith, length-put_scalar s x)) v h in
      rw (sym e) m
  min_size-encode (Kind.struct fs) v h = min_sizes-encode fs v h
  min_size-encode (Kind.pointer fs) none h = omega arith
  min_size-encode (Kind.pointer fs) (some v) h = omega arith

  min_sizes-encode :
      (fs : Fields) (v : Values fs) → FitsAll fs v → min_sizes fs ≤ length (encode_fields fs v)
  min_sizes-encode Fields.no_fields v h = omega arith
  min_sizes-encode (Fields.field k fs) (v, values) (h, hs) = omega (
    arith,
    length-append (encode k v) (encode_fields fs values),
    min_size-encode k v h,
    min_sizes-encode fs values hs,
  )

count_of-enough :
    (m n : ℕ) (rest : Bytes)
    → n * m ≤ length rest
    → (m ≡ 0 → n ≤ max_zero_size_count)
    → count_of m n rest ≡ some (n, rest)
unfolding count_of
count_of-enough zero n rest h z = ground (arith, z refl)
count_of-enough (suc m) n rest h z =
    let k : n ≤ length rest / suc m = (le-div_iff_mul-le (omega arith)).1 h in ground (arith, k)

read_count-write :
    (m n : ℕ) (rest : Bytes)
    → n < 2 ^ 64
    → n * m ≤ length rest
    → (m ≡ 0 → n ≤ max_zero_size_count)
    → read_count m (write_count n ++ rest) ≡ some (n, rest)
unfolding read_count
read_count-write m n rest b h z =
    rw (read_count, uvarint-write_count n rest b) (count_of-enough m n rest h z)

mutual
  unfolding encode decode decode_present

  -- What is encoded is decoded, with what follows it left.
  pub decode-encode :
      (k : Kind) (v : Value k) (rest : Bytes)
      → Fits k v
      → decode k (encode k v ++ rest) ≡ some (v, rest)
  decode-encode (Kind.scalar s) v rest h = get_scalar-put_scalar s v rest h
  decode-encode Kind.raw v rest h = read_raw-write v rest h
  decode-encode (Kind.slice k) v rest (b, z, h) =
      let bytes : Bytes = encode_all (encode k) v in
      let m = encode_all-length (encode k) (Fits k) (min_size k) (min_size-encode k) v h in
      let enough : length v * min_size k ≤ length (bytes ++ rest) =
        omega (arith, length-append bytes rest) in
      rw
        (
          append_assoc (write_count (length v)) bytes rest,
          read_count-write (min_size k) (length v) (bytes ++ rest) b enough z,
        )
        (decode_all-encode_all (encode k) (decode k) (Fits k) (decode-encode k) v rest h)
  decode-encode (Kind.array s n) v rest (e, h) = rw (sym e) (
      decode_all-encode_all (put_scalar s) (get_scalar s) (FitsScalar s) (get_scalar-put_scalar s) v
        rest h)
  decode-encode (Kind.struct fs) v rest h = decode_fields-encode_fields fs v rest h
  decode-encode (Kind.pointer fs) none rest h = refl
  decode-encode (Kind.pointer fs) (some v) rest h =
      rw (decode_fields-encode_fields fs v rest h) refl

  pub decode_fields-encode_fields :
      (fs : Fields) (v : Values fs) (rest : Bytes)
      → FitsAll fs v
      → decode_fields fs (encode_fields fs v ++ rest) ≡ some (v, rest)
  decode_fields-encode_fields Fields.no_fields v rest h = refl
  decode_fields-encode_fields (Fields.field k fs) (v, values) rest (h, hs) =
      rw
        (
          append_assoc (encode k v) (encode_fields fs values) rest,
          decode-encode k v (encode_fields fs values ++ rest) h,
          decode_fields-encode_fields fs values rest hs,
        )
        refl

-- A message whose exported fields are of the modelled kinds is unmarshalled as it was marshalled, if each
-- number fits its size, each count 64 bits, each array its length, and each list of elements that can take
-- no bytes has at most 2^20 of them.
pub unmarshal-marshal :
    (fs : Fields) (v : Values fs) → FitsAll fs v → unmarshal fs (marshal fs v) ≡ some v
unfolding unmarshal marshal
unmarshal-marshal fs v h =
    let e : decode_fields fs (encode_fields fs v) ≡ some (v, []) =
      ap (decode_fields fs) (sym (append-nil (encode_fields fs v)))
      ∙ decode_fields-encode_fields fs v [] h in
    rw e refl
