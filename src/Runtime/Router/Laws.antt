-- ===== src/Runtime/Router/Laws.antt =====
-- The lists and maps of pkg/protorun/ipc_router.go: one subscription of a protocol, one entry of a key.
use protorun.Prelude.{
  ℕ, ◌≡◌, refl, Bool, false, not, ◌&&◌, ◌||◌, List, [], ◌∷◌, none, ◌==◌, ==_iff, if◌then◌else◌, Map,
  lookup, insert, delete, nat_eq, lookup-insert, lookup-delete, arith,
}
use protorun.Runtime.Router.{NotificationSub, put_sub, remove_sub}

module _ {F : Type 0} where
  -- The protocol has a subscription in the list.
  unfoldable pub subscribes : ℕ → List (NotificationSub F) → Bool
  subscribes p [] = false
  subscribes p (s ∷ subs) = s.proto == p || subscribes p subs

  -- The subscriptions of the other protocols.
  unfoldable pub without : ℕ → List (NotificationSub F) → List (NotificationSub F)
  without p [] = []
  without p (s ∷ subs) = let rest = without p subs in if s.proto == p then rest else s ∷ rest

-- No protocol has two subscriptions in the list.
abbrev pub IsOnce : {F : Type 0} → List (NotificationSub F) → Type 0
IsOnce [] = Unit {0}
IsOnce (s ∷ subs) = (subscribes s.proto subs ≡ false) × IsOnce subs

-- A key has one entry.
abbrev pub IsKeyed : {V : Type 0} → Map ℕ V → Type 0
IsKeyed [] = Unit {0}
IsKeyed ((k, v) ∷ m) = (lookup k m ≡ none) × IsKeyed m

module _ {V : Type 0} where
  pub IsKeyed-insert : (k : ℕ) (v : V) (m : Map ℕ V) → IsKeyed m → IsKeyed (insert k v m)
  unfolding insert lookup
  IsKeyed-insert k v [] u = (refl, tt)
  IsKeyed-insert k v ((j, w) ∷ m) u =
      ground (arith, IsKeyed-insert k v m u.1, lookup-insert k j v m, ==_iff j k, ==_iff k j)

  pub IsKeyed-delete : (k : ℕ) (m : Map ℕ V) → IsKeyed m → IsKeyed (delete k m)
  unfolding delete
  IsKeyed-delete k [] u = tt
  IsKeyed-delete k ((j, w) ∷ m) u = ground (arith, IsKeyed-delete k m u.1, lookup-delete k j m)

module _ {F : Type 0} where
  subscribes-put_sub :
      (x p : ℕ) (f : F) (subs : List (NotificationSub F))
      → subscribes x (put_sub p f subs) ≡ (p == x || subscribes x subs)
  unfolding subscribes put_sub
  subscribes-put_sub x p f [] = refl
  subscribes-put_sub x p f (s ∷ subs) = ground (arith, subscribes-put_sub x p f subs)

  pub IsOnce-put_sub :
      (p : ℕ) (f : F) (subs : List (NotificationSub F)) → IsOnce subs → IsOnce (put_sub p f subs)
  unfolding put_sub subscribes
  IsOnce-put_sub p f [] u = (refl, tt)
  IsOnce-put_sub p f (s ∷ subs) u =
      ground (arith, IsOnce-put_sub p f subs u.1, subscribes-put_sub s.proto p f subs)

  without-absent :
      (p : ℕ) (subs : List (NotificationSub F)) → subscribes p subs ≡ false → without p subs ≡ subs
  unfolding without subscribes
  without-absent p [] e = refl
  without-absent p (s ∷ subs) e = ground (arith, without-absent p subs)

  pub remove_sub-without :
      (p : ℕ) (subs : List (NotificationSub F)) → IsOnce subs → remove_sub p subs ≡ without p subs
  unfolding remove_sub without
  remove_sub-without p [] u = refl
  remove_sub-without p (s ∷ subs) u =
      ground (arith, remove_sub-without p subs u.1, without-absent p subs)

  pub subscribes-without :
      (x p : ℕ) (subs : List (NotificationSub F))
      → subscribes x (without p subs) ≡ (subscribes x subs && not (p == x))
  unfolding subscribes without
  subscribes-without x p [] = refl
  subscribes-without x p (s ∷ subs) = ground (arith, subscribes-without x p subs)

  pub IsOnce-without :
      (p : ℕ) (subs : List (NotificationSub F)) → IsOnce subs → IsOnce (without p subs)
  unfolding without subscribes
  IsOnce-without p [] u = tt
  IsOnce-without p (s ∷ subs) u =
      ground (arith, IsOnce-without p subs u.1, subscribes-without s.proto p subs)
