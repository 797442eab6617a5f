-- ===== src/Plumtree/Cache.antt =====
-- pkg/protocols/plumtree/cache.go: the bounded FIFO of payloads. `order[0]` is read only where the
-- slice is not empty.
pub mod Entries
pub mod Laws
use protorun.Prelude.{
  ℕ, List, [], ◌∷◌, ◌++◌, Option, none, some, length, ltb, if◌then◌else◌, Map, lookup, insert,
  delete,
}
use protorun.Wire.{Bytes}
use protorun.Plumtree.Messages.{MessageId, id_eq}

pub record PayloadCache : Type 0 where
  pub max : ℕ
  pub items : Map MessageId Bytes
  pub order : List MessageId

unfoldable pub new_payload_cache : ℕ → PayloadCache
new_payload_cache max = record { max = max; items = []; order = [] }

-- The oldest entry goes.
unfoldable pub evict : PayloadCache → PayloadCache
evict c = elim c.order [
  | [] ↦ c
  | oldest ∷ rest ↦ record c { order = rest; items = delete oldest c.items }
]

unfoldable pub put : MessageId → Bytes → PayloadCache → PayloadCache
unfolding evict
put id payload c = elim (lookup id c.items) [
  | some old ↦ c
  | none ↦
      let c₁ = record c { items = insert id payload c.items; order = c.order ++ id ∷ [] } in
      if ltb c₁.max (length c₁.order) then evict c₁ else c₁
]

unfoldable pub get : MessageId → PayloadCache → Option Bytes
get id c = lookup id c.items

unfoldable pub size : PayloadCache → ℕ
size c = length c.items
