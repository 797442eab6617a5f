-- ===== src/Hyparview/Node/Admission.antt =====
-- The operations on the views of pkg/protocols/hyparview/protocol.go: what each makes of them.
use protorun.Prelude.{
  ◌<◌, ◌≡◌, refl, ap, true, false, ◌||◌, [], ◌∷◌, some, length, leb, same, arith, Bool-cases, inl,
  inr,
}
use protorun.Transport.Host.{Host, host_eq, host_beq_iff}
use protorun.Transport.HostSet.{HostSet, contains, add, remove}
use protorun.Transport.HostSet.Laws.{length-remove}
use protorun.Hyparview.Config.{Settings}
use protorun.Hyparview.Random.{Outside, IsRandom, random_except}
use protorun.Hyparview.Random.Laws.{random_except-member, random_except-some}
use protorun.Hyparview.Node.{
  Node, Effect, Message, emit, send, remove_active, evict_passive, make_room, add_passive,
  drop_active, drop_random_active, add_active,
}
use protorun.Hyparview.Node.Views.{
  told, AreViews, IsSound, AreViews-remove_passive, AreViews-remove_active, AreViews-add_passive,
  AreViews-add_active, some_member,
}

module _ {W : Type 0} ⦃o : Outside W⦄ where
  -- What `make_room` gives: a passive view with room, and no new member.
  record HasRoom (s t : Node W) : Type 0 where
    world : W
    passive : HostSet
    made : t ≡ record s { world = world; passive = passive }
    views : AreViews s.settings s.self s.active passive
    room : length passive < s.settings.passive_size

  make_room-HasRoom :
      (s : Node W)
      → IsRandom o
      → AreViews s.settings s.self s.active s.passive
      → HasRoom s (make_room s)
  unfolding make_room evict_passive contains
  make_room-HasRoom s r a = elim (Bool-cases (leb s.settings.passive_size (length s.passive))) [
    | inl e ↦
        let (h, m) = some_member s.passive (ground (arith, a.usable.passive)) in
        let (v, q) = random_except-some s.passive [] s.world h r m refl in
        let member = random_except-member s.passive [] s.world v q in
        record {
          world = (random_except s.passive [] s.world).1;
          passive = remove v s.passive;
          made = rw (e, q) refl;
          views = AreViews-remove_passive s.settings s.self s.active s.passive v a;
          room =
              ground
                (arith, length-remove v s.passive a.passive_distinct member.0, a.passive_bound);
        }
    | inr e ↦ record {
      world = s.world;
      passive = s.passive;
      made = rw e refl;
      views = a;
      room = ground arith;
    }
  ]

  -- What an operation on the passive view gives.
  pub record HasPassive (s t : Node W) : Type 0 where
    pub world : W
    pub passive : HostSet
    pub made : t ≡ record s { world = world; passive = passive }
    pub views : AreViews s.settings s.self s.active passive

  pub add_passive-HasPassive :
      (h : Host) (s : Node W)
      → IsRandom o
      → AreViews s.settings s.self s.active s.passive
      → HasPassive s (add_passive h s)
  unfolding add_passive
  add_passive-HasPassive h s r a =
      elim (Bool-cases (same h s.self || (contains h s.active || contains h s.passive))) [
        | inl e ↦ record { world = s.world; passive = s.passive; made = rw e refl; views = a }
        | inr e ↦
            let room = make_room-HasRoom s r a in
            record {
              world = room.world;
              passive = add h room.passive;
              made =
                  rw e (
                    ap {A = Node W} (λ t. record t { passive = add h (Node.passive t) }) room.made);
              views =
                  AreViews-add_passive s.settings s.self s.active room.passive h room.views
                    (ground arith) (ground arith) room.room;
            }
      ]

  pub add_passive-IsSound :
      {c : Settings} {me : Host} (h : Host) (s : Node W)
      → IsRandom o
      → IsSound c me s
      → IsSound c me (add_passive h s)
  add_passive-IsSound h s r (a, m, cs, id) =
      let p = add_passive-HasPassive h s r a in rw p.made (p.views, m, cs, id)

  pub remove_active-IsSound :
      {c : Settings} {me : Host} (h : Host) (s : Node W)
      → IsSound c me s
      → IsSound c me (remove_active h s)
  unfolding remove_active told
  remove_active-IsSound h s (a, m, cs, id) = elim (Bool-cases (contains h s.active)) [
    | inl e ↦ rw e (
      AreViews-remove_active s.settings s.self s.active s.passive h a,
      ap (λ v. remove h v) m,
      cs,
      id,
    )
    | inr e ↦ rw e (a, m, cs, id)
  ]

  -- What the eviction of an active peer gives.
  record HasDropped (v : Host) (s t : Node W) : Type 0 where
    world : W
    passive : HostSet
    made : t ≡ record s {
      world = world;
      passive = passive;
      active = remove v s.active;
      trace =
          Effect.disconnected v
          ∷ Effect.sent Message.disconnect v
          ∷ Effect.neighbor_down v
          ∷ s.trace;
    }
    views : AreViews s.settings s.self (remove v s.active) passive

  drop_active-HasDropped :
      (v : Host) (s : Node W)
      → IsRandom o
      → contains v s.active ≡ true
      → AreViews s.settings s.self s.active s.passive
      → HasDropped v s (drop_active (some v) s)
  unfolding drop_active remove_active
  drop_active-HasDropped v s r e a =
      let s₁ = emit (Effect.neighbor_down v) (record s { active = remove v s.active }) in
      let p =
        add_passive-HasPassive v s₁ r
          (AreViews-remove_active s.settings s.self s.active s.passive v a) in
      record {
        world = p.world;
        passive = p.passive;
        made = rw e (
            ap {A = Node W} (λ t. emit (Effect.disconnected v) (send Message.disconnect v t))
              p.made);
        views = p.views;
      }

  drop_random_active-HasDropped :
      (keep : Host) (s : Node W)
      → IsRandom o
      → contains keep s.active ≡ false
      → 0 < length s.active
      → AreViews s.settings s.self s.active s.passive
      → (v : Host) × (contains v s.active ≡ true) × HasDropped v s (drop_random_active keep s)
  unfolding drop_random_active contains
  drop_random_active-HasDropped keep s r out lt a =
      let (h, m) = some_member s.active lt in
      let other : contains h (keep ∷ []) ≡ false = ground (arith, host_beq_iff keep h) in
      let (v, q) = random_except-some s.active (keep ∷ []) s.world h r m other in
      let member = random_except-member s.active (keep ∷ []) s.world v q in
      let w = (random_except s.active (keep ∷ []) s.world).1 in
      let d = drop_active-HasDropped v (record s { world = w }) r member.0 a in
      (
        v,
        member.0,
        record { world = d.world; passive = d.passive; made = rw q d.made; views = d.views },
      )

  pub add_active-IsSound :
      {c : Settings} {me : Host} (h : Host) (s : Node W)
      → IsRandom o
      → IsSound c me s
      → IsSound c me (add_active h s)
  unfolding add_active told
  add_active-IsSound h s r (a, m, cs, id) =
      elim (Bool-cases (same h s.self || contains h s.active)) [
        | inl e ↦ rw e (a, m, cs, id)
        | inr e ↦ elim (Bool-cases (leb s.settings.active_size (length s.active))) [
          | inl full ↦
              let (v, member, d) =
                drop_random_active-HasDropped h s r (ground arith) (ground (arith, a.usable.active))
                  a in
              rw (e, full, d.made)
                (
                  AreViews-add_active s.settings s.self (remove v s.active) d.passive h d.views
                      (ground arith)
                      (ground
                        (arith, length-remove v s.active a.active_distinct member, a.active_bound)),
                  ap (λ x. add h (remove v x)) m,
                  cs,
                  id,
                )
          | inr free ↦
              rw (e, free)
                (
                  AreViews-add_active s.settings s.self s.active s.passive h a (ground arith)
                      (ground arith),
                  ap (λ x. add h x) m,
                  cs,
                  id,
                )
        ]
      ]
