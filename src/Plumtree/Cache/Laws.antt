-- ===== src/Plumtree/Cache/Laws.antt =====
-- The cache of pkg/protocols/plumtree/cache.go against the history of what was put into it.
use protorun.Prelude.{
  keys, if_elim, append_assoc, append-nil, ℕ, suc, ◌+◌, ◌-◌, ◌≤◌, ◌<◌, ◌≡◌, refl, ap, ◌∙◌, sym,
  List, [], ◌∷◌, ◌++◌, none, arith, length, drop, length-append, length-drop, ltb, if◌then◌else◌,
  Map, lookup, insert, delete, same_refl, subst,
}
use protorun.Wire.{Bytes}
use protorun.Plumtree.Messages.{MessageId, id_eq}
use protorun.Plumtree.Cache.Entries.{
  IsUnique, insert-absent, delete-absent, keys-append, length-keys, IsUnique-snoc, IsUnique-middle,
  lookup-drop, drop-append_of_le, drop-suc,
}
use protorun.Plumtree.Cache.{PayloadCache, new_payload_cache, evict, put}

-- The cache after the puts of a history.
record Holds (c : PayloadCache) (h : Map MessageId Bytes) : Type 0 where
  ordered : c.order ≡ keys c.items
  unique : IsUnique c.items
  window : c.items ≡ drop (length h - c.max) h

abbrev grown : MessageId → Bytes → PayloadCache → PayloadCache
grown id p c = record c { items = c.items ++ (id, p) ∷ []; order = c.order ++ id ∷ [] }

evict-cons :
    (id : MessageId) (p : Bytes) (m : Map MessageId Bytes) (c : PayloadCache)
    → c.items ≡ (id, p) ∷ m
    → c.order ≡ keys c.items
    → IsUnique c.items
    → evict c ≡ record c { items = m; order = keys m }
unfolding evict delete
evict-cons id p m c e o u =
    let order : c.order ≡ id ∷ keys m = o ∙ ap keys e in
    let gone : delete id c.items ≡ m =
      rw (e, same_refl id) (delete-absent id m (subst IsUnique e u).0) in
    rw (evict, order, gone) refl

nonempty-snoc {ℓ} :
    {A : Type ℓ} (xs : List A) (x : A) → (y : A) × (ys : List A) × (xs ++ x ∷ [] ≡ y ∷ ys)
nonempty-snoc [] x = (x, [], refl)
nonempty-snoc (z ∷ xs) x = (z, xs ++ x ∷ [], refl)

put-new :
    (id : MessageId) (p : Bytes) (c : PayloadCache)
    → lookup id c.items ≡ none
    → put id p c
      ≡ (if ltb c.max (length (c.order ++ id ∷ [])) then evict (grown id p c) else grown id p c)
unfolding put
put-new id p c h = ground (arith, insert-absent id p c.items)

Holds-grown :
    (id : MessageId) (p : Bytes) (c : PayloadCache) (h : Map MessageId Bytes)
    → Holds c h
    → lookup id h ≡ none
    → length h < c.max
    → Holds (grown id p c) (h ++ (id, p) ∷ [])
Holds-grown id p c h v n room =
    let before : length h - c.max ≡ 0 = omega arith in
    let whole : c.items ≡ h = v.window ∙ ap (λ k. drop k h) before in
    let after : length (h ++ (id, p) ∷ []) - c.max ≡ 0 =
      omega (arith, length-append h ((id, p) ∷ [])) in
    record {
      ordered = ap (λ x. x ++ id ∷ []) v.ordered ∙ sym (keys-append c.items ((id, p) ∷ []));
      unique = IsUnique-snoc id p c.items v.unique (rw whole n);
      window = rw (after, whole) refl;
    }

Holds-evict :
    (id : MessageId) (p : Bytes) (c : PayloadCache) (h : Map MessageId Bytes)
    → Holds c h
    → lookup id h ≡ none
    → c.max ≤ length h
    → Holds (evict (grown id p c)) (h ++ (id, p) ∷ [])
Holds-evict id p c h v n full =
    let absent : lookup id c.items ≡ none = rw v.window (lookup-drop id (length h - c.max) h n) in
    let unique = IsUnique-snoc id p c.items v.unique absent in
    let order : c.order ++ id ∷ [] ≡ keys (c.items ++ (id, p) ∷ []) =
      ap (λ x. x ++ id ∷ []) v.ordered ∙ sym (keys-append c.items ((id, p) ∷ [])) in
    let (y, m, e) = nonempty-snoc c.items (id, p) in
    let after : length (h ++ (id, p) ∷ []) - c.max ≡ suc (length h - c.max) =
      omega (arith, length-append h ((id, p) ∷ [])) in
    let kept : m ≡ drop (suc (length h - c.max)) (h ++ (id, p) ∷ []) =
      rw
        (
          drop-suc (length h - c.max) (h ++ (id, p) ∷ []),
          drop-append_of_le (length h - c.max) h ((id, p) ∷ []) (omega arith),
          ← v.window,
          e,
        )
        refl in
    rw (evict-cons y.0 y.1 m (grown id p c) e order unique)
      (record { ordered = refl; unique = (subst IsUnique e unique).1; window = rw after kept })

Holds-put :
    (id : MessageId) (p : Bytes) (c : PayloadCache) (h : Map MessageId Bytes)
    → Holds c h
    → lookup id h ≡ none
    → Holds (put id p c) (h ++ (id, p) ∷ [])
Holds-put id p c h v n =
    let absent : lookup id c.items ≡ none = rw v.window (lookup-drop id (length h - c.max) h n) in
    let count : length (c.order ++ id ∷ []) ≡ length h - (length h - c.max) + 1 = omega (
      arith,
      length-append c.order (id ∷ []),
      ap length v.ordered,
      length-keys c.items,
      ap length v.window,
      length-drop (length h - c.max) h,
    ) in
    rw (put-new id p c absent) (
      if_elim (λ x. Holds x (h ++ (id, p) ∷ [])) (ltb c.max (length (c.order ++ id ∷ [])))
        (evict (grown id p c)) (grown id p c) (λ full. Holds-evict id p c h v n (ground arith))
        (λ room. Holds-grown id p c h v n (ground arith)))

max-evict : (c : PayloadCache) → (evict c).max ≡ c.max
unfolding evict
max-evict c = go c.order
  where
    go :
        (order : List MessageId)
        → (elim order as (λ _. PayloadCache) [
          | [] ↦ c
          | oldest ∷ rest ↦ record c { order = rest; items = delete oldest c.items }
        ]).max
          ≡ c.max
    go [] = refl
    go (oldest ∷ rest) = refl

max-put : (id : MessageId) (p : Bytes) (c : PayloadCache) → (put id p c).max ≡ c.max
unfolding put
max-put id p c =
    let c₁ = record c { items = insert id p c.items; order = c.order ++ id ∷ [] } in
    let m = max-evict c₁ in ground arith

-- Puts in turn.
unfoldable pub put_all : Map MessageId Bytes → PayloadCache → PayloadCache
put_all [] c = c
put_all ((id, p) ∷ puts) c = put_all puts (put id p c)

max-put_all : (puts : Map MessageId Bytes) (c : PayloadCache) → (put_all puts c).max ≡ c.max
unfolding put_all
max-put_all [] c = refl
max-put_all ((id, p) ∷ puts) c = max-put_all puts (put id p c) ∙ max-put id p c

Holds-put_all :
    (puts : Map MessageId Bytes) (c : PayloadCache) (h : Map MessageId Bytes)
    → Holds c h
    → IsUnique (h ++ puts)
    → Holds (put_all puts c) (h ++ puts)
unfolding put_all
Holds-put_all [] c h v u = rw (append-nil h) v
Holds-put_all ((id, p) ∷ puts) c h v u =
    let assoc = append_assoc h ((id, p) ∷ []) puts in
    subst (λ x. Holds (put_all puts (put id p c)) x) assoc
      (Holds-put_all puts (put id p c) (h ++ (id, p) ∷ [])
        (Holds-put id p c h v (IsUnique-middle h id p puts u)) (subst IsUnique (sym assoc) u))

-- After payloads of different ids were put into a new cache, it holds exactly the last ones, as many
-- as its bound allows, oldest first.
pub put_all-window :
    (max : ℕ) (puts : Map MessageId Bytes)
    → IsUnique puts
    → (put_all puts (new_payload_cache max)).items ≡ drop (length puts - max) puts
unfolding new_payload_cache
put_all-window max puts u =
    let start = new_payload_cache max in
    let empty : 0 - max ≡ 0 = omega arith in
    let v =
      Holds-put_all puts start [] (record { ordered = refl; unique = tt; window = rw empty refl })
        u in
    v.window ∙ ap (λ k. drop (length puts - k) puts) (max-put_all puts start)
