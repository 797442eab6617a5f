-- ===== src/Wire/Tests.antt =====
-- The reflective codec of pkg/protorun/wirecodec.go at one message: a 16-bit integer, a string, a list of
-- Booleans, an array of two 32-bit integers, an optional struct and a list of empty structs.
use protorun.Prelude.{arith, refl, true, false, [], ◌∷◌, some, ◌≡◌}
use protorun.Wire.Kinds.{Scalar, Kind, Fields, Values, marshal, unmarshal}
use protorun.Wire.Kinds.Laws.{unmarshal-marshal}

abbrev inner : Fields
inner = Fields.field (Kind.scalar (Scalar.bits 1)) Fields.no_fields

abbrev message : Fields
message = Fields.field (Kind.scalar (Scalar.bits 2)) (
    Fields.field Kind.raw (
      Fields.field (Kind.slice (Kind.scalar Scalar.boolean)) (
        Fields.field (Kind.array (Scalar.bits 4) 2) (
          Fields.field (Kind.pointer inner)
            (Fields.field (Kind.slice (Kind.struct Fields.no_fields)) Fields.no_fields)))))

abbrev value : Values message
value =
    (513, (104 ∷ 105 ∷ [], (true ∷ false ∷ [], (7 ∷ 65536 ∷ [], (some (9, tt), (tt ∷ [], tt))))))

unmarshal-marshal_example : unmarshal message (marshal message value) ≡ some value
unmarshal-marshal_example = unmarshal-marshal message value (
  omega arith,
  (
    omega arith,
    (
      (omega arith, λ e. omega arith, (tt, (tt, tt))),
      (
        (refl, (omega arith, (omega arith, tt))),
        ((omega arith, tt), ((omega arith, λ e. omega arith, (tt, tt)), tt)),
      ),
    ),
  ),
)
