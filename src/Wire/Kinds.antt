-- ===== src/Wire/Kinds.antt =====
-- pkg/protorun/wirecodec.go: the reflective codec. A plan is compiled from a Go type; here it is read off
-- a description of the type, of its exported fields without the tag `wire:"-"`. Maps, types that refer to
-- themselves and nil messages are not modelled. A number stands for its bits, and nil and empty slices
-- are one value. None is an error.
mod Varint
pub mod Laws
use protorun.Prelude.{
  ℕ, zero, suc, ◌+◌, ◌-◌, ◌*◌, ◌/◌, ◌%◌, ◌^◌, Bool, true, false, List, [], ◌∷◌, ◌++◌, Option, none,
  some, length, take, drop, ltb, ◌==◌, ◌&&◌, if◌then◌else◌,
}
use protorun.Wire.{Bytes, le_encode, le_decode, bool_byte, is_set}

infixl 5 ◌>>=◌
abbrev pub ◌>>=◌ : {A B : Type 0} (o : Option A) (next : A → Option B) → Option B
none >>= next = none
some value >>= next = next value

-- The kinds of fixed size: a Boolean, or an integer or a float of some bytes.
pub data Scalar : Type 0 where
  boolean : Scalar
  bits : ℕ → Scalar

mutual
  pub data Kind : Type 0 where
    scalar : Scalar → Kind
    -- a string or a byte slice
    raw : Kind
    slice : Kind → Kind
    array : Scalar → ℕ → Kind
    struct : Fields → Kind
    pointer : Fields → Kind

  pub data Fields : Type 0 where
    no_fields : Fields
    field : Kind → Fields → Fields

abbrev pub ScalarValue : Scalar → Type 0
ScalarValue Scalar.boolean = Bool
ScalarValue (Scalar.bits w) = ℕ

abbrev mutual
  pub Value : Kind → Type 0
  Value (Kind.scalar s) = ScalarValue s
  Value Kind.raw = Bytes
  Value (Kind.slice k) = List (Value k)
  Value (Kind.array s n) = List (ScalarValue s)
  Value (Kind.struct fs) = Values fs
  Value (Kind.pointer fs) = Option (Values fs)

  pub Values : Fields → Type 0
  Values Fields.no_fields = Unit {0}
  Values (Fields.field k fs) = Value k × Values fs

-- `AppendUvarint` of encoding/binary: nine rounds and the last byte are enough for 64 bits.
unfoldable pub append_uvarint : ℕ → ℕ → Bytes
append_uvarint zero n = n ∷ []
append_uvarint (suc rounds) n =
    let rest = append_uvarint rounds (n / 128) in
    if ltb n 128 then n ∷ [] else (n % 128 + 128) ∷ rest

-- `Uvarint`: the value and what follows it; the tenth byte is 1 at most.
unfoldable pub uvarint : ℕ → Bytes → Option (ℕ × Bytes)
uvarint rounds [] = none
uvarint zero (b ∷ input) = if ltb 1 b then none else some (b, input)
uvarint (suc rounds) (b ∷ input) =
    let rest = uvarint rounds input in
    if ltb b 128 then some (b, input) else rest >>= λ r. some (b - 128 + 128 * r.0, r.1)

abbrev pub write_count : ℕ → Bytes
write_count n = append_uvarint 9 n

-- `fixedCodec`, with the entries of `scalarCodecs`.
unfoldable pub scalar_size : Scalar → ℕ
scalar_size Scalar.boolean = 1
scalar_size (Scalar.bits w) = w

unfoldable pub put_scalar : (s : Scalar) → ScalarValue s → Bytes
put_scalar Scalar.boolean b = bool_byte b ∷ []
put_scalar (Scalar.bits w) n = le_encode w n

unfoldable pub scalar_of : (s : Scalar) → Bytes → ScalarValue s
scalar_of Scalar.boolean [] = false
scalar_of Scalar.boolean (b ∷ bytes) = is_set b
scalar_of (Scalar.bits w) bytes = le_decode bytes

unfoldable pub get_scalar : (s : Scalar) → Bytes → Option (ScalarValue s × Bytes)
unfolding scalar_size scalar_of
get_scalar s input =
    if ltb (length input) (scalar_size s)
    then none
    else some (scalar_of s (take (scalar_size s) input), drop (scalar_size s) input)

unfoldable pub read_raw : Bytes → Option (Bytes × Bytes)
unfolding uvarint
read_raw input = do
  (n, rest) ← uvarint 9 input
  if ltb (length rest) n then none else some (take n rest, drop n rest)

abbrev pub max_zero_size_count : ℕ
max_zero_size_count = 2 ^ 20

unfoldable pub count_of : (elem_min n : ℕ) → Bytes → Option (ℕ × Bytes)
count_of elem_min n rest =
    if ltb 0 elem_min
    then if ltb (length rest / elem_min) n then none else some (n, rest)
    else if ltb max_zero_size_count n
    then none
    else some (n, rest)

unfoldable pub read_count : (elem_min : ℕ) → Bytes → Option (ℕ × Bytes)
unfolding uvarint count_of
read_count elem_min input = do (n, rest) ← uvarint 9 input; count_of elem_min n rest

-- The smallest size of a value on the wire.
unfoldable mutual
  unfolding scalar_size

  pub min_size : Kind → ℕ
  min_size (Kind.scalar s) = scalar_size s
  min_size Kind.raw = 1
  min_size (Kind.slice k) = 1
  min_size (Kind.array s n) = n * scalar_size s
  min_size (Kind.struct fs) = min_sizes fs
  min_size (Kind.pointer fs) = 1

  pub min_sizes : Fields → ℕ
  min_sizes Fields.no_fields = 0
  min_sizes (Fields.field k fs) = min_size k + min_sizes fs

-- The loops over the elements.
unfoldable pub encode_all : {A : Type 0} → (A → Bytes) → List A → Bytes
encode_all enc [] = []
encode_all enc (v ∷ values) = enc v ++ encode_all enc values

unfoldable pub decode_all :
    {A : Type 0} → (Bytes → Option (A × Bytes)) → ℕ → Bytes → Option (List A × Bytes)
decode_all dec zero input = some ([], input)
decode_all dec (suc n) input = do
  (v, rest) ← dec input
  (values, rest') ← decode_all dec n rest
  some (v ∷ values, rest')

unfoldable mutual
  unfolding put_scalar encode_all append_uvarint

  pub encode : (k : Kind) → Value k → Bytes
  encode (Kind.scalar s) v = put_scalar s v
  encode Kind.raw v = write_count (length v) ++ v
  encode (Kind.slice k) v = write_count (length v) ++ encode_all (encode k) v
  encode (Kind.array s n) v = encode_all (put_scalar s) v
  encode (Kind.struct fs) v = encode_fields fs v
  encode (Kind.pointer fs) none = 0 ∷ []
  encode (Kind.pointer fs) (some v) = 1 ∷ encode_fields fs v

  pub encode_fields : (fs : Fields) → Values fs → Bytes
  encode_fields Fields.no_fields v = []
  encode_fields (Fields.field k fs) (v, values) = encode k v ++ encode_fields fs values

-- The presence byte of a pointer.
unfoldable pub decode_present :
    {A : Type 0} → (Bytes → Option (A × Bytes)) → Bytes → Option (Option A × Bytes)
decode_present dec [] = none
decode_present dec (present ∷ input) =
    if present == 0
    then some (none, input)
    else if present == 1
    then (dec input >>= λ r. some (some r.0, r.1))
    else none

unfoldable mutual
  unfolding get_scalar read_raw read_count min_size decode_all decode_present

  pub decode : (k : Kind) → Bytes → Option (Value k × Bytes)
  decode (Kind.scalar s) input = get_scalar s input
  decode Kind.raw input = read_raw input
  decode (Kind.slice k) input = read_count (min_size k) input >>= λ r. decode_all (decode k) r.0 r.1
  decode (Kind.array s n) input = decode_all (get_scalar s) n input
  decode (Kind.struct fs) input = decode_fields fs input
  decode (Kind.pointer fs) input = decode_present (decode_fields fs) input

  pub decode_fields : (fs : Fields) → Bytes → Option (Values fs × Bytes)
  decode_fields Fields.no_fields input = some (tt, input)
  decode_fields (Fields.field k fs) input =
      decode k input >>= λ r. decode_fields fs r.1 >>= λ q. some ((r.0, q.0), q.1)

-- `Marshal` and `Unmarshal` of a message with these fields: nothing may follow it.
unfoldable pub marshal : (fs : Fields) → Values fs → Bytes
unfolding encode
marshal fs v = encode_fields fs v

unfoldable pub unmarshal : (fs : Fields) → Bytes → Option (Values fs)
unfolding decode
unmarshal fs input = decode_fields fs input >>= λ r. if length r.1 == 0 then some r.0 else none
