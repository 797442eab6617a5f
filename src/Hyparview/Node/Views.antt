-- ===== src/Hyparview/Node/Views.antt =====
-- The two views of pkg/protocols/hyparview/protocol.go, with the notifications about the active one, under
-- the operations that change them.
use protorun.Prelude.{◌<◌, ◌≤◌, ◌≡◌, true, false, ◌&&◌, List, [], ◌∷◌, length, same, arith}
use protorun.Transport.Host.{Host, host_eq, host_beq_iff}
use protorun.Transport.HostSet.{HostSet, contains, add, remove}
use protorun.Transport.HostSet.Laws.{
  IsDistinct, contains-add, contains-remove, IsDistinct-add, IsDistinct-remove, length-remove_le,
  length-add_le,
}
use protorun.Hyparview.Config.{Settings, IsUsable}
use protorun.Hyparview.Node.{Node, Effect}

-- The active view that the notifications of a trace, the newest first, have told.
unfoldable pub told : List Effect → HostSet
told [] = []
told (Effect.neighbor_up h ∷ es) = add h (told es)
told (Effect.neighbor_down h ∷ es) = remove h (told es)
told (Effect.sent m h ∷ es) = told es
told (Effect.connected h ∷ es) = told es
told (Effect.disconnected h ∷ es) = told es
told (Effect.replied_view hs ∷ es) = told es
told (Effect.replied_state hs ms ∷ es) = told es

-- No host is in both views, in one of them twice, or the node itself; each view is within its size.
pub record AreViews (c : Settings) (self : Host) (active passive : HostSet) : Type 0 where
  pub usable : IsUsable c
  pub apart : (h : Host) → (contains h active && contains h passive) ≡ false
  pub active_distinct : IsDistinct active
  pub passive_distinct : IsDistinct passive
  pub active_others : contains self active ≡ false
  pub passive_others : contains self passive ≡ false
  pub active_bound : length active ≤ c.active_size
  pub passive_bound : length passive ≤ c.passive_size

-- The views are in order, the notifications have told the active one, and the node is who it was.
abbrev pub IsSound : {W : Type 0} → Settings → Host → Node W → Type 0
IsSound c me s =
    AreViews s.settings s.self s.active s.passive
    × (told s.trace ≡ s.active)
    × (s.settings ≡ c)
    × (s.self ≡ me)

pub AreViews-remove_passive :
    (c : Settings) (self : Host) (active passive : HostSet) (v : Host)
    → AreViews c self active passive
    → AreViews c self active (remove v passive)
AreViews-remove_passive c self active passive v a = record {
  usable = a.usable;
  apart = λ x. ground (arith, a.apart x, contains-remove x v passive);
  active_distinct = a.active_distinct;
  passive_distinct = IsDistinct-remove v passive a.passive_distinct;
  active_others = a.active_others;
  passive_others = ground (arith, a.passive_others, contains-remove self v passive);
  active_bound = a.active_bound;
  passive_bound = omega (arith, a.passive_bound, length-remove_le v passive);
}

pub AreViews-remove_active :
    (c : Settings) (self : Host) (active passive : HostSet) (v : Host)
    → AreViews c self active passive
    → AreViews c self (remove v active) passive
AreViews-remove_active c self active passive v a = record {
  usable = a.usable;
  apart = λ x. ground (arith, a.apart x, contains-remove x v active);
  active_distinct = IsDistinct-remove v active a.active_distinct;
  passive_distinct = a.passive_distinct;
  active_others = ground (arith, a.active_others, contains-remove self v active);
  passive_others = a.passive_others;
  active_bound = omega (arith, a.active_bound, length-remove_le v active);
  passive_bound = a.passive_bound;
}

pub AreViews-add_passive :
    (c : Settings) (self : Host) (active passive : HostSet) (h : Host)
    → AreViews c self active passive
    → same h self ≡ false
    → contains h active ≡ false
    → length passive < c.passive_size
    → AreViews c self active (add h passive)
AreViews-add_passive c self active passive h a other out lt = record {
  usable = a.usable;
  apart = λ x. ground (arith, a.apart x, contains-add x h passive, host_beq_iff h x);
  active_distinct = a.active_distinct;
  passive_distinct = IsDistinct-add h passive a.passive_distinct;
  active_others = a.active_others;
  passive_others = ground (arith, a.passive_others, contains-add self h passive);
  active_bound = a.active_bound;
  passive_bound = omega (arith, length-add_le h passive);
}

-- The admission of a host, which leaves the passive view.
pub AreViews-add_active :
    (c : Settings) (self : Host) (active passive : HostSet) (h : Host)
    → AreViews c self active passive
    → same h self ≡ false
    → length active < c.active_size
    → AreViews c self (add h active) (remove h passive)
AreViews-add_active c self active passive h a other lt = record {
  usable = a.usable;
  apart = λ x.
      ground
        (arith, a.apart x, contains-add x h active, contains-remove x h passive, host_beq_iff h x);
  active_distinct = IsDistinct-add h active a.active_distinct;
  passive_distinct = IsDistinct-remove h passive a.passive_distinct;
  active_others = ground (arith, a.active_others, contains-add self h active);
  passive_others = ground (arith, a.passive_others, contains-remove self h passive);
  active_bound = omega (arith, length-add_le h active);
  passive_bound = omega (arith, a.passive_bound, length-remove_le h passive);
}

pub some_member : (s : HostSet) → 0 < length s → (h : Host) × (contains h s ≡ true)
unfolding contains
some_member [] lt = absurd (omega arith)
some_member (h ∷ s) lt = (h, ground (arith, host_beq_iff h h))
