-- ===== src/Hyparview/Random/Laws.antt =====
-- What a random choice of pkg/protocols/hyparview/views.go gives.
use protorun.Prelude.{ℕ, zero, suc, ◌<◌, ◌≡◌, refl, List, [], ◌∷◌, some, length, true, false, arith}
use protorun.Transport.Host.{Host, host_eq, host_beq_iff}
use protorun.Transport.HostSet.{HostSet, contains, sorted, filter_except}
use protorun.Transport.HostSet.Laws.{contains-filter_except, contains-sorted}
use protorun.Hyparview.Random.{Outside, IsRandom, nth, pick, random_except}

nth-member : (i : ℕ) (xs : List Host) (v : Host) → nth i xs ≡ some v → contains v xs ≡ true
unfolding nth contains
nth-member i [] v e = cc e
nth-member zero (x ∷ xs) v e = ground (arith, host_beq_iff x v)
nth-member (suc i) (x ∷ xs) v e = ground (arith, nth-member i xs v e)

nth-some : (i : ℕ) (xs : List Host) → i < length xs → (v : Host) × (nth i xs ≡ some v)
unfolding nth
nth-some i [] h = absurd (omega arith)
nth-some zero (x ∷ xs) h = (x, refl)
nth-some (suc i) (x ∷ xs) h = nth-some i xs (omega arith)

module _ {W : Type 0} ⦃o : Outside W⦄ where
  pick-member : (xs : List Host) (w : W) (v : Host) → (pick xs w).0 ≡ some v → contains v xs ≡ true
  unfolding pick
  pick-member [] w v e = cc e
  pick-member (x ∷ xs) w v e = nth-member (o.int_n (length (x ∷ xs)) w).0 (x ∷ xs) v e

  -- What is chosen is a member, and not one of the excluded.
  pub random_except-member :
      (s : HostSet) (exclude : List Host) (w : W) (v : Host)
      → (random_except s exclude w).0 ≡ some v
      → (contains v s ≡ true) × (contains v exclude ≡ false)
  unfolding random_except
  random_except-member s exclude w v e =
      let m = pick-member (filter_except (sorted s) exclude) w v e in
      (
        ground (arith, contains-filter_except v (sorted s) exclude, contains-sorted v s),
        ground (arith, contains-filter_except v (sorted s) exclude),
      )

  pick-some :
      (xs : List Host) (w : W) (h : Host)
      → IsRandom o
      → contains h xs ≡ true
      → (v : Host) × ((pick xs w).0 ≡ some v)
  unfolding pick contains
  pick-some [] w h r e = cc e
  pick-some (x ∷ xs) w h r e =
      nth-some (o.int_n (length (x ∷ xs)) w).0 (x ∷ xs)
        (r.int_n-lt (length (x ∷ xs)) w (omega arith))

  -- There is a choice while a member is not excluded.
  pub random_except-some :
      (s : HostSet) (exclude : List Host) (w : W) (h : Host)
      → IsRandom o
      → contains h s ≡ true
      → contains h exclude ≡ false
      → (v : Host) × ((random_except s exclude w).0 ≡ some v)
  unfolding random_except
  random_except-some s exclude w h r m x =
      pick-some (filter_except (sorted s) exclude) w h r
        (ground (arith, contains-filter_except h (sorted s) exclude, contains-sorted h s))
