-- ===== src/Runtime/Router.antt =====
-- pkg/protorun/ipc_router.go: who handles a request and who is told of a notification. A protocol is a
-- number, `F` the type of the handlers. The locks make each operation one step.
pub mod Laws
pub mod Owners
use protorun.Prelude.{
  ℕ, ◌≡◌, Bool, true, false, List, [], ◌∷◌, ◌++◌, Option, none, some, or_default, ◌==◌,
  if◌then◌else◌, Map, lookup, insert, delete, nat_eq,
}

pub record RequestRoute (F : Type 0) : Type 0 where
  pub proto : ℕ
  pub handler : F

pub record NotificationSub (F : Type 0) : Type 0 where
  pub proto : ℕ
  pub fn : F

pub record IpcRouter (F : Type 0) : Type 0 where
  pub request_routes : Map ℕ (RequestRoute F)
  pub notification_fanout : Map ℕ (List (NotificationSub F))

module _ {F : Type 0} where
  unfoldable pub new_ipc_router : IpcRouter F
  new_ipc_router = record { request_routes = []; notification_fanout = [] }

  -- The state and the previous route.
  unfoldable pub register_request_route :
      ℕ → ℕ → F → IpcRouter F → IpcRouter F × Option (RequestRoute F)
  register_request_route id proto handler r = (
    record r {
      request_routes = insert id (record { proto = proto; handler = handler }) r.request_routes;
    },
    lookup id r.request_routes,
  )

  unfoldable pub route : ℕ → IpcRouter F → Option (RequestRoute F)
  route id r = lookup id r.request_routes

  -- The subscription is replaced in its place, or appended.
  unfoldable pub put_sub : ℕ → F → List (NotificationSub F) → List (NotificationSub F)
  put_sub proto fn [] = record { proto = proto; fn = fn } ∷ []
  put_sub proto fn (s ∷ subs) =
      let rest = put_sub proto fn subs in
      if s.proto == proto then record s { fn = fn } ∷ subs else s ∷ rest

  unfoldable pub snapshot_subscribers : ℕ → IpcRouter F → List (NotificationSub F)
  snapshot_subscribers id r = or_default [] (lookup id r.notification_fanout)

  unfoldable pub subscribe : ℕ → ℕ → F → IpcRouter F → IpcRouter F
  unfolding put_sub snapshot_subscribers
  subscribe id proto fn r = record r {
    notification_fanout =
        insert id (put_sub proto fn (snapshot_subscribers id r)) r.notification_fanout;
  }

  unfoldable pub remove_sub : ℕ → List (NotificationSub F) → List (NotificationSub F)
  remove_sub proto [] = []
  remove_sub proto (s ∷ subs) =
      let rest = remove_sub proto subs in if s.proto == proto then subs else s ∷ rest

  -- An empty bucket is deleted.
  unfoldable pub put_bucket :
      ℕ
      → List (NotificationSub F)
      → Map ℕ (List (NotificationSub F))
      → Map ℕ (List (NotificationSub F))
  put_bucket id [] m = delete id m
  put_bucket id (s ∷ subs) m = insert id (s ∷ subs) m

  unfoldable pub unsubscribe : ℕ → ℕ → IpcRouter F → IpcRouter F
  unfolding remove_sub put_bucket
  unsubscribe id proto r = record r {
    notification_fanout =
        put_bucket id (remove_sub proto (snapshot_subscribers id r)) r.notification_fanout;
  }

  -- The two loops of `RemoveOwner`.
  unfoldable pub remove_routes : ℕ → Map ℕ (RequestRoute F) → Map ℕ (RequestRoute F)
  remove_routes proto [] = []
  remove_routes proto ((id, x) ∷ m) =
      let rest = remove_routes proto m in if x.proto == proto then rest else (id, x) ∷ rest

  unfoldable pub keep_bucket :
      ℕ
      → List (NotificationSub F)
      → Map ℕ (List (NotificationSub F))
      → Map ℕ (List (NotificationSub F))
  keep_bucket id [] m = m
  keep_bucket id (s ∷ subs) m = (id, s ∷ subs) ∷ m

  unfoldable pub remove_subs :
      ℕ → Map ℕ (List (NotificationSub F)) → Map ℕ (List (NotificationSub F))
  unfolding remove_sub keep_bucket
  remove_subs proto [] = []
  remove_subs proto ((id, subs) ∷ m) = keep_bucket id (remove_sub proto subs) (remove_subs proto m)

  unfoldable pub remove_owner : ℕ → IpcRouter F → IpcRouter F
  unfolding remove_routes remove_subs
  remove_owner proto r = record r {
    request_routes = remove_routes proto r.request_routes;
    notification_fanout = remove_subs proto r.notification_fanout;
  }

-- An operation on the tables, in the order in which the locks were taken.
pub data Operation (F : Type 0) : Type 0 where
  registered : ℕ → ℕ → F → Operation F
  subscribed : ℕ → ℕ → F → Operation F
  unsubscribed : ℕ → ℕ → Operation F
  removed : ℕ → Operation F

module _ {F : Type 0} where
  unfoldable pub operate : Operation F → IpcRouter F → IpcRouter F
  operate (Operation.registered id proto f) r = (register_request_route id proto f r).0
  operate (Operation.subscribed id proto f) r = subscribe id proto f r
  operate (Operation.unsubscribed id proto) r = unsubscribe id proto r
  operate (Operation.removed proto) r = remove_owner proto r

  unfoldable pub operate_all : List (Operation F) → IpcRouter F → IpcRouter F
  unfolding operate
  operate_all [] r = r
  operate_all (x ∷ xs) r = operate_all xs (operate x r)
