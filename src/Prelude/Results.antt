-- ===== src/Prelude/Results.antt =====
-- Go's `(value, error)` results: the value, or the error.

-- The errors of `io.ReadFull`, `binary.Read` and `ReadByte`: no byte left, or too few; and
-- `WriteHost`'s own. An error that the program wraps with `%w` is the one that it wraps.
pub data Error : Type 0 where
  eof unexpected_eof too_long : Error

pub data Result {ℓ} (A : Type ℓ) : Type ℓ where
  err : Error → Result A
  ok : A → Result A

-- Go's `if err != nil { return err }`.
infixl 5 ◌>>=◌
abbrev pub ◌>>=◌ {ℓ κ} : {A : Type ℓ} {B : Type κ} (r : Result A) (next : A → Result B) → Result B
err reason >>= next = err reason
ok value >>= next = next value
