-- ===== src/Transport/HostSet.antt =====
-- The hostSet of pkg/protocols/plumtree/views.go and pkg/protocols/hyparview/views.go, and
-- Host.String of pkg/transport/host.go, by which they sort. A Go set is the list of its members, each
-- once, in the order in which they were added.
pub mod Laws
use protorun.Prelude.{
  ℕ, zero, suc, ◌+◌, ◌/◌, ◌%◌, Bool, true, false, not, ◌||◌, List, [], ◌∷◌, ◌++◌, length, ltb,
  if◌then◌else◌, same,
}
use protorun.Wire.{Bytes}
use protorun.Transport.Host.{Host, host_eq, bytes_less}

-- The decimal digits of a number, before those in hand. `n + 1` rounds are enough for `n`.
unfoldable pub decimal_rounds : ℕ → ℕ → Bytes → Bytes
decimal_rounds zero n digits = digits
decimal_rounds (suc rounds) n digits =
    let rest = decimal_rounds rounds (n / 10) ((48 + n % 10) ∷ digits) in
    if ltb n 10 then (48 + n) ∷ digits else rest

unfoldable pub decimal : ℕ → Bytes
unfolding decimal_rounds
decimal n = decimal_rounds (n + 1) n []

-- `String`: the name, a colon and the port.
unfoldable pub host_string : Host → Bytes
unfolding decimal
host_string h = h.ip ++ 58 ∷ decimal h.port

abbrev pub HostSet : Type 0
HostSet = List Host

unfoldable pub contains : Host → HostSet → Bool
contains h [] = false
contains h (x ∷ xs) = same x h || contains h xs

unfoldable pub add : Host → HostSet → HostSet
unfolding contains
add h s = if contains h s then s else s ++ h ∷ []

unfoldable pub remove : Host → HostSet → HostSet
remove h [] = []
remove h (x ∷ xs) = let rest = remove h xs in if same x h then rest else x ∷ rest

-- `sort.Slice` by the strings.
unfoldable pub insert_by_string : Host → List Host → List Host
unfolding host_string
insert_by_string h [] = h ∷ []
insert_by_string h (x ∷ xs) =
    if bytes_less (host_string x) (host_string h) then x ∷ insert_by_string h xs else h ∷ x ∷ xs

unfoldable pub sorted : HostSet → List Host
unfolding insert_by_string
sorted [] = []
sorted (x ∷ xs) = insert_by_string x (sorted xs)

-- `filterExcept`, whose early return for no exclusion gives the same list.
unfoldable pub filter_except : List Host → List Host → List Host
unfolding contains
filter_except [] exclude = []
filter_except (x ∷ xs) exclude =
    let rest = filter_except xs exclude in if contains x exclude then rest else x ∷ rest
