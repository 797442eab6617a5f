-- ===== src/Transport/HostSet/Laws.antt =====
-- Membership, size and distinctness under the operations of a host set.
use protorun.Prelude.{
  ◌+◌, ◌≤◌, ◌≡◌, refl, true, false, not, ◌&&◌, ◌||◌, List, [], ◌∷◌, ◌++◌, length, length-append,
  arith, same, Bool-cases, inl, inr,
}
use protorun.Transport.Host.{Host, host_eq, host_beq_iff}
use protorun.Transport.HostSet.{
  HostSet, contains, add, remove, insert_by_string, sorted, filter_except,
}

-- No host stands in the list twice.
abbrev pub IsDistinct : List Host → Type 0
IsDistinct [] = Unit {0}
IsDistinct (x ∷ xs) = (contains x xs ≡ false) × IsDistinct xs

pub contains-append :
    (h : Host) (xs ys : List Host) → contains h (xs ++ ys) ≡ (contains h xs || contains h ys)
unfolding contains
contains-append h [] ys = refl
contains-append h (x ∷ xs) ys = ground (arith, contains-append h xs ys)

pub contains-add : (x h : Host) (s : HostSet) → contains x (add h s) ≡ (same h x || contains x s)
unfolding add contains
contains-add x h s = ground (arith, contains-append x s (h ∷ []), host_beq_iff h x)

pub contains-remove :
    (x h : Host) (s : HostSet) → contains x (remove h s) ≡ (contains x s && not (same h x))
unfolding remove contains
contains-remove x h [] = refl
contains-remove x h (y ∷ s) =
    ground (arith, contains-remove x h s, host_beq_iff y h, host_beq_iff h x, host_beq_iff y x)

contains-insert :
    (x h : Host) (xs : List Host) → contains x (insert_by_string h xs) ≡ (same h x || contains x xs)
unfolding insert_by_string contains
contains-insert x h [] = refl
contains-insert x h (y ∷ xs) = ground (arith, contains-insert x h xs)

pub contains-sorted : (x : Host) (s : HostSet) → contains x (sorted s) ≡ contains x s
unfolding sorted contains
contains-sorted x [] = refl
contains-sorted x (y ∷ s) = ground (arith, contains-insert x y (sorted s), contains-sorted x s)

pub contains-filter_except :
    (x : Host) (xs exclude : List Host)
    → contains x (filter_except xs exclude) ≡ (contains x xs && not (contains x exclude))
unfolding filter_except contains
contains-filter_except x [] exclude = refl
contains-filter_except x (y ∷ xs) exclude =
    ground (arith, contains-filter_except x xs exclude, host_beq_iff y x)

pub remove-absent : (h : Host) (s : HostSet) → contains h s ≡ false → remove h s ≡ s
unfolding remove contains
remove-absent h [] e = refl
remove-absent h (x ∷ s) e = ground (arith, remove-absent h s)

pub length-remove_le : (h : Host) (s : HostSet) → length (remove h s) ≤ length s
unfolding remove
length-remove_le h [] = omega arith
length-remove_le h (x ∷ s) = ground (arith, length-remove_le h s)

pub length-remove :
    (h : Host) (s : HostSet)
    → IsDistinct s
    → contains h s ≡ true
    → length (remove h s) + 1 ≡ length s
unfolding remove contains
length-remove h [] d e = cc e
length-remove h (x ∷ s) d e =
    ground (arith, length-remove h s d.1, remove-absent h s, host_beq_iff x h)

pub length-add_le : (h : Host) (s : HostSet) → length (add h s) ≤ length s + 1
unfolding add
length-add_le h s = ground (arith, length-append s (h ∷ []))

IsDistinct-snoc :
    (h : Host) (s : HostSet) → IsDistinct s → contains h s ≡ false → IsDistinct (s ++ h ∷ [])
unfolding contains
IsDistinct-snoc h [] d e = (refl, tt)
IsDistinct-snoc h (x ∷ s) d e = (
  ground (arith, contains-append x s (h ∷ []), host_beq_iff x h, host_beq_iff h x),
  IsDistinct-snoc h s d.1 (ground arith),
)

pub IsDistinct-add : (h : Host) (s : HostSet) → IsDistinct s → IsDistinct (add h s)
unfolding add
IsDistinct-add h s d = elim (Bool-cases (contains h s)) [
  | inl e ↦ rw e d
  | inr e ↦ rw e (IsDistinct-snoc h s d e)
]

pub IsDistinct-remove : (h : Host) (s : HostSet) → IsDistinct s → IsDistinct (remove h s)
unfolding remove
IsDistinct-remove h [] d = tt
IsDistinct-remove h (x ∷ s) d = ground (arith, contains-remove x h s, IsDistinct-remove h s d.1)
