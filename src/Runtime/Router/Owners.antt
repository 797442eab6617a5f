-- ===== src/Runtime/Router/Owners.antt =====
-- The tables of pkg/protorun/ipc_router.go over any sequence of operations.
use protorun.Prelude.{
  ℕ, ◌≡◌, refl, ap, ◌∙◌, sym, subst, Bool, true, false, List, [], ◌∷◌, Option, none, some,
  or_default, ◌==◌, ==_iff, if◌then◌else◌, Map, lookup, insert, nat_eq, lookup-insert,
  lookup-delete, arith, Bool-cases, inl, inr,
}
use protorun.Runtime.Router.{
  RequestRoute, NotificationSub, IpcRouter, new_ipc_router, register_request_route, route, put_sub,
  snapshot_subscribers, subscribe, remove_sub, put_bucket, unsubscribe, remove_routes, keep_bucket,
  remove_subs, remove_owner, Operation, operate, operate_all,
}
use protorun.Runtime.Router.Laws.{
  without, IsOnce, IsKeyed, IsKeyed-insert, IsKeyed-delete, IsOnce-put_sub, remove_sub-without,
  IsOnce-without,
}

-- The route, unless the protocol owns it.
unfoldable pub not_owned : {F : Type 0} → ℕ → Option (RequestRoute F) → Option (RequestRoute F)
not_owned p none = none
not_owned p (some x) = if x.proto == p then none else some x

module _ {F : Type 0} where
  -- The tables have one entry for a key, and no protocol is told of a notification twice.
  pub record IsRouter (r : IpcRouter F) : Type 0 where
    pub routes_keyed : IsKeyed r.request_routes
    pub fanout_keyed : IsKeyed r.notification_fanout
    pub once : (id : ℕ) → IsOnce (snapshot_subscribers id r)

  lookup-remove_routes :
      (p id : ℕ) (m : Map ℕ (RequestRoute F))
      → IsKeyed m
      → lookup id (remove_routes p m) ≡ not_owned p (lookup id m)
  unfolding remove_routes lookup not_owned
  lookup-remove_routes p id [] u = refl
  lookup-remove_routes p id ((k, x) ∷ m) u =
      ground (arith, lookup-remove_routes p id m u.1, ==_iff k id)

  IsKeyed-remove_routes :
      (p : ℕ) (m : Map ℕ (RequestRoute F)) → IsKeyed m → IsKeyed (remove_routes p m)
  unfolding remove_routes not_owned
  IsKeyed-remove_routes p [] u = tt
  IsKeyed-remove_routes p ((k, x) ∷ m) u =
      ground (arith, IsKeyed-remove_routes p m u.1, lookup-remove_routes p k m u.1)

  -- What is left of a bucket.
  abbrev bucket : ℕ → Map ℕ (List (NotificationSub F)) → List (NotificationSub F)
  bucket id m = or_default [] (lookup id m)

  keep_bucket-absent :
      (k id : ℕ) (subs : List (NotificationSub F)) (m : Map ℕ (List (NotificationSub F)))
      → k == id ≡ false
      → lookup id (keep_bucket k subs m) ≡ lookup id m
  unfolding keep_bucket lookup
  keep_bucket-absent k id [] m e = refl
  keep_bucket-absent k id (s ∷ subs) m e = rw e refl

  keep_bucket-own :
      (k id : ℕ) (subs : List (NotificationSub F)) (m : Map ℕ (List (NotificationSub F)))
      → k == id ≡ true
      → lookup id m ≡ none
      → bucket id (keep_bucket k subs m) ≡ subs
  unfolding keep_bucket lookup
  keep_bucket-own k id [] m e absent = rw absent refl
  keep_bucket-own k id (s ∷ subs) m e absent = rw e refl

  absent-remove_subs :
      (p id : ℕ) (m : Map ℕ (List (NotificationSub F)))
      → lookup id m ≡ none
      → lookup id (remove_subs p m) ≡ none
  unfolding remove_subs lookup
  absent-remove_subs p id [] e = refl
  absent-remove_subs p id ((k, subs) ∷ m) e =
      let other : k == id ≡ false = ground arith in
      keep_bucket-absent k id (remove_sub p subs) (remove_subs p m) other
      ∙ absent-remove_subs p id m (ground arith)

  bucket-remove_subs :
      (p id : ℕ) (m : Map ℕ (List (NotificationSub F)))
      → IsKeyed m
      → bucket id (remove_subs p m) ≡ remove_sub p (bucket id m)
  unfolding remove_subs lookup remove_sub
  bucket-remove_subs p id [] u = refl
  bucket-remove_subs p id ((k, subs) ∷ m) u = elim (Bool-cases (k == id)) [
    | inl e ↦
        let gone = absent-remove_subs p k m u.0 in
        rw e (
          keep_bucket-own k id (remove_sub p subs) (remove_subs p m) e
            (subst (λ x. lookup x (remove_subs p m) ≡ none) ((==_iff k id).0 e) gone))
    | inr e ↦ rw e (
        ap (λ o. or_default [] o) (keep_bucket-absent k id (remove_sub p subs) (remove_subs p m) e)
        ∙ bucket-remove_subs p id m u.1)
  ]

  IsKeyed-keep_bucket :
      (k : ℕ) (subs : List (NotificationSub F)) (m : Map ℕ (List (NotificationSub F)))
      → lookup k m ≡ none
      → IsKeyed m
      → IsKeyed (keep_bucket k subs m)
  unfolding keep_bucket
  IsKeyed-keep_bucket k [] m e u = u
  IsKeyed-keep_bucket k (s ∷ subs) m e u = (e, u)

  IsKeyed-remove_subs :
      (p : ℕ) (m : Map ℕ (List (NotificationSub F))) → IsKeyed m → IsKeyed (remove_subs p m)
  unfolding remove_subs
  IsKeyed-remove_subs p [] u = tt
  IsKeyed-remove_subs p ((k, subs) ∷ m) u =
      IsKeyed-keep_bucket k (remove_sub p subs) (remove_subs p m) (absent-remove_subs p k m u.0)
        (IsKeyed-remove_subs p m u.1)

  bucket-put_bucket :
      (k id : ℕ) (subs : List (NotificationSub F)) (m : Map ℕ (List (NotificationSub F)))
      → bucket id (put_bucket k subs m) ≡ (if k == id then subs else bucket id m)
  unfolding put_bucket
  bucket-put_bucket k id [] m = ground (arith, lookup-delete k id m)
  bucket-put_bucket k id (s ∷ subs) m = ground (arith, lookup-insert k id (s ∷ subs) m)

  IsKeyed-put_bucket :
      (k : ℕ) (subs : List (NotificationSub F)) (m : Map ℕ (List (NotificationSub F)))
      → IsKeyed m
      → IsKeyed (put_bucket k subs m)
  unfolding put_bucket
  IsKeyed-put_bucket k [] m u = IsKeyed-delete k m u
  IsKeyed-put_bucket k (s ∷ subs) m u = IsKeyed-insert k (s ∷ subs) m u

  IsOnce-if :
      (b : Bool) (xs ys : List (NotificationSub F))
      → IsOnce xs
      → IsOnce ys
      → IsOnce (if b then xs else ys)
  IsOnce-if true xs ys x y = x
  IsOnce-if false xs ys x y = y

  IsOnce-remove_sub :
      (p : ℕ) (subs : List (NotificationSub F)) → IsOnce subs → IsOnce (remove_sub p subs)
  IsOnce-remove_sub p subs u =
      subst IsOnce (sym (remove_sub-without p subs u)) (IsOnce-without p subs u)

  bucket-insert :
      (k id : ℕ) (subs : List (NotificationSub F)) (m : Map ℕ (List (NotificationSub F)))
      → bucket id (insert k subs m) ≡ (if k == id then subs else bucket id m)
  bucket-insert k id subs m = ground (arith, lookup-insert k id subs m)

  IsRouter-subscribe :
      (id p : ℕ) (f : F) (r : IpcRouter F) → IsRouter r → IsRouter (subscribe id p f r)
  unfolding subscribe snapshot_subscribers
  IsRouter-subscribe id p f r v =
      let subs = put_sub p f (bucket id r.notification_fanout) in
      record {
        routes_keyed = v.routes_keyed;
        fanout_keyed = IsKeyed-insert id subs r.notification_fanout v.fanout_keyed;
        once = λ j. subst IsOnce (sym (bucket-insert id j subs r.notification_fanout)) (
            IsOnce-if (id == j) subs (bucket j r.notification_fanout)
              (IsOnce-put_sub p f (bucket id r.notification_fanout) (v.once id)) (v.once j));
      }

  IsRouter-unsubscribe : (id p : ℕ) (r : IpcRouter F) → IsRouter r → IsRouter (unsubscribe id p r)
  unfolding unsubscribe snapshot_subscribers
  IsRouter-unsubscribe id p r v =
      let subs = remove_sub p (bucket id r.notification_fanout) in
      record {
        routes_keyed = v.routes_keyed;
        fanout_keyed = IsKeyed-put_bucket id subs r.notification_fanout v.fanout_keyed;
        once = λ j. subst IsOnce (sym (bucket-put_bucket id j subs r.notification_fanout)) (
            IsOnce-if (id == j) subs (bucket j r.notification_fanout)
              (IsOnce-remove_sub p (bucket id r.notification_fanout) (v.once id)) (v.once j));
      }

  IsRouter-remove_owner : (p : ℕ) (r : IpcRouter F) → IsRouter r → IsRouter (remove_owner p r)
  unfolding remove_owner snapshot_subscribers
  IsRouter-remove_owner p r v = record {
    routes_keyed = IsKeyed-remove_routes p r.request_routes v.routes_keyed;
    fanout_keyed = IsKeyed-remove_subs p r.notification_fanout v.fanout_keyed;
    once = λ j.
        subst IsOnce (sym (bucket-remove_subs p j r.notification_fanout v.fanout_keyed))
          (IsOnce-remove_sub p (bucket j r.notification_fanout) (v.once j));
  }

  IsRouter-operate : (x : Operation F) (r : IpcRouter F) → IsRouter r → IsRouter (operate x r)
  unfolding operate register_request_route snapshot_subscribers
  IsRouter-operate (Operation.registered id p f) r v = record {
    routes_keyed =
        IsKeyed-insert id (record { proto = p; handler = f }) r.request_routes v.routes_keyed;
    fanout_keyed = v.fanout_keyed;
    once = v.once;
  }
  IsRouter-operate (Operation.subscribed id p f) r v = IsRouter-subscribe id p f r v
  IsRouter-operate (Operation.unsubscribed id p) r v = IsRouter-unsubscribe id p r v
  IsRouter-operate (Operation.removed p) r v = IsRouter-remove_owner p r v

  IsRouter-kept :
      (xs : List (Operation F)) (r : IpcRouter F) → IsRouter r → IsRouter (operate_all xs r)
  unfolding operate_all
  IsRouter-kept [] r v = v
  IsRouter-kept (x ∷ xs) r v = IsRouter-kept xs (operate x r) (IsRouter-operate x r v)

  new_ipc_router-IsRouter : IsRouter new_ipc_router
  unfolding new_ipc_router snapshot_subscribers lookup
  new_ipc_router-IsRouter = record { routes_keyed = tt; fanout_keyed = tt; once = λ id. tt }

-- After any operations on a new router: RemoveOwner leaves of the subscribers of each notification exactly
-- those of the other protocols, in their order, of the request routes exactly those that the protocol does
-- not own, and nobody is subscribed to a notification twice.
pub remove_owner-without :
    {F : Type 0} (xs : List (Operation F)) (p id : ℕ)
    → let r = operate_all xs new_ipc_router in
      (snapshot_subscribers id (remove_owner p r) ≡ without p (snapshot_subscribers id r))
      × (route id (remove_owner p r) ≡ not_owned p (route id r))
      × IsOnce (snapshot_subscribers id r)
unfolding remove_owner snapshot_subscribers route
remove_owner-without xs p id =
    let r = operate_all xs new_ipc_router in
    let v = IsRouter-kept xs new_ipc_router new_ipc_router-IsRouter in
    (
      bucket-remove_subs p id r.notification_fanout v.fanout_keyed
          ∙ remove_sub-without p (bucket id r.notification_fanout) (v.once id),
      lookup-remove_routes p id r.request_routes v.routes_keyed,
      v.once id,
    )
