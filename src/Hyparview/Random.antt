-- ===== src/Hyparview/Random.antt =====
-- pkg/protocols/hyparview/views.go: the random choices among the members of a host set, with what the
-- handlers use of the packages around them. `W` is the state of all that stands outside the protocol.
pub mod Laws
use protorun.Prelude.{
  ℕ, zero, suc, ◌<◌, ◌≡◌, List, [], ◌∷◌, Option, none, some, length, take, ltb, if◌then◌else◌, Bool,
}
use protorun.Transport.Host.{Host}
use protorun.Transport.HostSet.{HostSet, contains, sorted, filter_except}

-- `int_n` and `shuffle` are IntN and Shuffle of math/rand/v2; `connect` is Connect of the protocol's
-- context, false for an error.
pub record Outside (W : Type 0) : Type 0 where
  pub int_n : ℕ → W → ℕ × W
  pub shuffle : List Host → W → List Host × W
  pub connect : Host → W → Bool × W

-- What the two random functions promise: a number below the bound, and a permutation.
pub record IsRandom {W : Type 0} (o : Outside W) : Type 0 where
  pub int_n-lt : (n : ℕ) (w : W) → 0 < n → (o.int_n n w).0 < n
  pub contains-shuffle :
      (h : Host) (hs : List Host) (w : W) → contains h (o.shuffle hs w).0 ≡ contains h hs

unfoldable pub nth : ℕ → List Host → Option Host
nth n [] = none
nth zero (x ∷ xs) = some x
nth (suc n) (x ∷ xs) = nth n xs

module _ {W : Type 0} ⦃o : Outside W⦄ where
  unfoldable pub pick : List Host → W → Option Host × W
  unfolding nth
  pick [] w = (none, w)
  pick (x ∷ xs) w = let (i, w₁) = o.int_n (length (x ∷ xs)) w in (nth i (x ∷ xs), w₁)

  -- `randomExcept`
  unfoldable pub random_except : HostSet → List Host → W → Option Host × W
  unfolding pick
  random_except s exclude w = pick (filter_except (sorted s) exclude) w

  -- `randomSample`
  unfoldable pub random_sample : HostSet → ℕ → List Host → W → List Host × W
  random_sample s n exclude w =
      let (cand, w₁) = o.shuffle (filter_except (sorted s) exclude) w in
      (if ltb n (length cand) then take n cand else cand, w₁)
