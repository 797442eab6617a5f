-- ===== src/Plumtree/Cache/Entries.antt =====
-- The entries of the cache of pkg/protocols/plumtree/cache.go: their keys, adding and dropping one.
use protorun.Prelude.{
  ℕ, zero, suc, ◌≤◌, ◌≡◌, refl, ap, false, List, [], ◌∷◌, ◌++◌, none, arith, length, drop, Map,
  lookup, insert, delete, same, keys,
}
use protorun.Wire.{Bytes}
use protorun.Plumtree.Messages.{MessageId, id_eq, id_beq_iff}

pub insert-absent :
    (id : MessageId) (p : Bytes) (m : Map MessageId Bytes)
    → lookup id m ≡ none
    → insert id p m ≡ m ++ (id, p) ∷ []
unfolding lookup insert
insert-absent id p [] h = refl
insert-absent id p ((j, q) ∷ m) h = ground (arith, insert-absent id p m)

pub delete-absent :
    (id : MessageId) (m : Map MessageId Bytes) → lookup id m ≡ none → delete id m ≡ m
unfolding lookup delete
delete-absent id [] h = refl
delete-absent id ((j, q) ∷ m) h = ground (arith, delete-absent id m)

pub keys-append : (m n : Map MessageId Bytes) → keys (m ++ n) ≡ keys m ++ keys n
keys-append [] n = refl
keys-append ((id, p) ∷ m) n = ap (λ x. id ∷ x) (keys-append m n)

pub length-keys : (m : Map MessageId Bytes) → length (keys m) ≡ length m
length-keys [] = refl
length-keys ((id, p) ∷ m) = ap suc (length-keys m)

lookup-snoc :
    (k id : MessageId) (p : Bytes) (m : Map MessageId Bytes)
    → lookup k m ≡ none
    → same id k ≡ false
    → lookup k (m ++ (id, p) ∷ []) ≡ none
unfolding lookup
lookup-snoc k id p [] h n = rw n
lookup-snoc k id p ((j, q) ∷ m) h n = ground (arith, lookup-snoc k id p m)

-- No id stands in the list twice.
abbrev pub IsUnique : Map MessageId Bytes → Type 0
IsUnique [] = Unit {0}
IsUnique ((id, p) ∷ m) = (lookup id m ≡ none) × IsUnique m

pub IsUnique-snoc :
    (id : MessageId) (p : Bytes) (m : Map MessageId Bytes)
    → IsUnique m
    → lookup id m ≡ none
    → IsUnique (m ++ (id, p) ∷ [])
unfolding lookup
IsUnique-snoc id p [] u h = (refl, tt)
IsUnique-snoc id p ((j, q) ∷ m) u h = (
  lookup-snoc j id p m u.0 ground (arith, id_beq_iff id j, id_beq_iff j id),
  IsUnique-snoc id p m u.1 (ground arith),
)

lookup-append_left :
    (k : MessageId) (m n : Map MessageId Bytes) → lookup k (m ++ n) ≡ none → lookup k m ≡ none
unfolding lookup
lookup-append_left k [] n h = refl
lookup-append_left k ((j, q) ∷ m) n h = ground (arith, lookup-append_left k m n)

-- The first new id is not among those before it.
pub IsUnique-middle :
    (m : Map MessageId Bytes) (id : MessageId) (p : Bytes) (n : Map MessageId Bytes)
    → IsUnique (m ++ (id, p) ∷ n)
    → lookup id m ≡ none
unfolding lookup
IsUnique-middle [] id p n u = refl
IsUnique-middle ((j, q) ∷ m) id p n u =
    let rest = IsUnique-middle m id p n u.1 in
    let other = lookup-middle j m in ground (arith, rest, other, id_beq_iff j id, id_beq_iff id j)
  where
    lookup-middle :
        (k : MessageId) (m : Map MessageId Bytes)
        → lookup k (m ++ (id, p) ∷ n) ≡ none
        → same id k ≡ false
    lookup-middle k [] h = ground arith
    lookup-middle k ((i, r) ∷ m) h = ground (arith, lookup-middle k m)

pub lookup-drop :
    (k : MessageId) (n : ℕ) (m : Map MessageId Bytes)
    → lookup k m ≡ none
    → lookup k (drop n m) ≡ none
unfolding lookup
lookup-drop k zero m h = h
lookup-drop k (suc n) [] h = refl
lookup-drop k (suc n) ((j, q) ∷ m) h = ground (arith, lookup-drop k n m)

pub drop-append_of_le {ℓ} :
    {A : Type ℓ} (n : ℕ) (xs ys : List A) → n ≤ length xs → drop n (xs ++ ys) ≡ drop n xs ++ ys
drop-append_of_le zero xs ys h = refl
drop-append_of_le (suc n) [] ys h = absurd (omega arith)
drop-append_of_le (suc n) (x ∷ xs) ys h = drop-append_of_le n xs ys (omega arith)

pub drop-suc {ℓ} : {A : Type ℓ} (n : ℕ) (xs : List A) → drop (suc n) xs ≡ drop 1 (drop n xs)
drop-suc zero xs = refl
drop-suc (suc n) [] = refl
drop-suc (suc n) (x ∷ xs) = drop-suc n xs
