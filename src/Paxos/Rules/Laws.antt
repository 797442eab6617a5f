-- ===== src/Paxos/Rules/Laws.antt =====
-- Ballots, the choice of a value and majorities of pkg/protocols/paxos/state.go.
use native.Mathlib.Nat.{div-add-mod, mod-lt, div-le_self, mod-eq_of_lt, mul-add-mod_self_right}
use protorun.Prelude.{
  ℕ, ◌+◌, ◌*◌, ◌/◌, ◌%◌, ◌^◌, ◌≤◌, ◌<◌, ◌≡◌, ◌≢◌, refl, ap, ◌∙◌, sym, true, false, List, [], ◌∷◌,
  arith, ◌⊎◌, inl, inr, Bool-cases, All, dec_lt, if_elim,
}
use protorun.Wire.{Bytes}
use protorun.Paxos.Rules.{
  PromiseInfo, majority_size, next_ballot, Choice, better, scan_infos, choose_value,
}

-- The multiple of `n` that follows `m`.
round_bounds : (m n : ℕ) → 0 < n → (m < (m / n + 1) * n) × ((m / n + 1) * n ≤ m + n)
round_bounds m n pos = omega (arith, div-add-mod m n, mod-lt m pos)

-- With room below 2 ^ 64, nothing wraps.
next_ballot-eq : (m n i : ℕ) → 0 < n → m + n + i < 2 ^ 64 → next_ballot m n i ≡ (m / n + 1) * n + i
unfolding next_ballot
next_ballot-eq m n i pos room =
    let q : (m / n + 1) % 2 ^ 64 ≡ m / n + 1 = omega (arith, div-le_self m n) in
    rw q (omega (arith, round_bounds m n pos))

-- A node's next ballot is above every ballot that it has seen.
pub lt-next_ballot : (m n i : ℕ) → 0 < n → m + n + i < 2 ^ 64 → m < next_ballot m n i
lt-next_ballot m n i pos room = omega (arith, next_ballot-eq m n i pos room, round_bounds m n pos)

next_ballot-mod : (m n i : ℕ) → i < n → m + n + i < 2 ^ 64 → next_ballot m n i % n ≡ i
next_ballot-mod m n i lt room =
    rw (next_ballot-eq m n i (omega arith) room)
      (mul-add-mod_self_right (m / n + 1) n i ∙ mod-eq_of_lt lt)

-- Two nodes never choose the same ballot, whatever each has seen.
pub next_ballot_disjoint :
    (m k n i j : ℕ)
    → i < n
    → j < n
    → i ≢ j
    → m + n + i < 2 ^ 64
    → k + n + j < 2 ^ 64
    → next_ballot m n i ≢ next_ballot k n j
next_ballot_disjoint m k n i j hi hj ne room_m room_k e =
    ne (sym (next_ballot-mod m n i hi room_m) ∙ ap (λ b. b % n) e ∙ next_ballot-mod k n j hj room_k)

-- Close to the end of the uint64 range the next ballot wraps round and is not above what was seen.
pub next_ballot_wraps :
    (m n i : ℕ)
    → 0 < n
    → n < 2 ^ 32
    → i < n
    → m < 2 ^ 64
    → 2 ^ 64 ≤ (m / n + 1) * n
    → next_ballot m n i < m
unfolding next_ballot
next_ballot_wraps m n i pos small lt fits over =
    let bounds = round_bounds m n pos in
    elim (dec_lt (m / n + 1) (2 ^ 64)) [
      | yes h ↦
          let q : (m / n + 1) % 2 ^ 64 ≡ m / n + 1 = omega arith in rw q (omega (arith, bounds))
      | no h ↦
          let q : (m / n + 1) % 2 ^ 64 ≡ 0 = omega (arith, div-le_self m n) in
          rw q (omega (arith, bounds))
    ]

-- An acceptor of the quorum reports that it accepted `v` at ballot `b`.
abbrev pub Reports : List PromiseInfo → ℕ → Bytes → Type 0
Reports [] b v = ⊥
Reports (info ∷ infos) b v =
    ((info.has_accepted ≡ true) × (info.accepted_ballot ≡ b) × (info.accepted_value ≡ v))
    ⊎ Reports infos b v

-- No acceptor reports a ballot above `b`.
abbrev pub NoneAbove : ℕ → List PromiseInfo → Type 0
NoneAbove b = All (λ info. (info.has_accepted ≡ false) ⊎ (info.accepted_ballot ≤ b))

abbrev pub NoneAccepted : List PromiseInfo → Type 0
NoneAccepted = All (λ info. info.has_accepted ≡ false)

-- What the loop has found over `infos`, from `c` to `r`.
record Scanned (infos : List PromiseInfo) (c r : Choice) : Type 0 where
  grown : c.adopted ≡ true → (r.adopted ≡ true) × (c.best_ballot ≤ r.best_ballot)
  bounded : r.adopted ≡ true → NoneAbove r.best_ballot infos
  empty : r.adopted ≡ false → NoneAccepted infos
  origin : (r ≡ c) ⊎ ((r.adopted ≡ true) × Reports infos r.best_ballot r.best)

abbrev taken : PromiseInfo → Choice
taken info = record {
  best = info.accepted_value;
  best_ballot = info.accepted_ballot;
  adopted = true;
}

Scanned-take :
    (info : PromiseInfo) (infos : List PromiseInfo) (c r : Choice)
    → better info c ≡ true
    → Scanned infos (taken info) r
    → Scanned (info ∷ infos) c r
unfolding better
Scanned-take info infos c r take ih = record {
  grown = λ h. ground (arith, ih.grown refl);
  bounded = λ h. (inr (ih.grown refl).1, ih.bounded h);
  empty = λ h. absurd (cc ((ih.grown refl).0));
  origin = elim ih.origin [
    | inl e ↦ inr (ap (λ (x : Choice). x.adopted) e, inl (ground arith, ground arith, ground arith))
    | inr (a, reports) ↦ inr (a, inr reports)
  ];
}

Scanned-keep :
    (info : PromiseInfo) (infos : List PromiseInfo) (c r : Choice)
    → better info c ≡ false
    → Scanned infos c r
    → Scanned (info ∷ infos) c r
unfolding better
Scanned-keep info infos c r keep ih = record {
  grown = ih.grown;
  bounded = λ h. (ground (arith, ih.grown), ih.bounded h);
  empty = λ h. (ground (arith, ih.grown), ih.empty h);
  origin = elim ih.origin [ inl e ↦ inl e | inr (a, reports) ↦ inr (a, inr reports) ];
}

scan_infos_lem : (infos : List PromiseInfo) (c : Choice) → Scanned infos c (scan_infos infos c)
unfolding scan_infos
scan_infos_lem [] c = record {
  grown = λ h. (h, omega arith);
  bounded = λ _. tt;
  empty = λ _. tt;
  origin = inl refl;
}
scan_infos_lem (info ∷ infos) c =
    if_elim (λ x. Scanned (info ∷ infos) c (scan_infos infos x)) (better info c) (taken info) c
      (λ take. Scanned-take info infos c _ take (scan_infos_lem infos (taken info)))
      (λ keep. Scanned-keep info infos c _ keep (scan_infos_lem infos c))

-- A value is adopted exactly as the paper says: if it is adopted, an acceptor of the quorum reports
-- it at a ballot above which nobody reports anything; if not, nobody reports anything, and the value
-- is the proposer's own.
pub choose_value_lem :
    (infos : List PromiseInfo) (own : Bytes)
    → let (v, adopted) = choose_value infos own in
      ((adopted ≡ true) × ((b : ℕ) × Reports infos b v × NoneAbove b infos))
      ⊎ ((adopted ≡ false) × (v ≡ own) × NoneAccepted infos)
unfolding choose_value
choose_value_lem infos own =
    let start : Choice = record { best = []; best_ballot = 0; adopted = false } in
    let r = scan_infos infos start in
    let l = scan_infos_lem infos start in
    elim (Bool-cases r.adopted) [
      | inl yes_adopted ↦
          rw yes_adopted
            (inl (refl, (r.best_ballot, reported r l yes_adopted, l.bounded yes_adopted)))
      | inr not_adopted ↦ rw not_adopted (inr (refl, refl, l.empty not_adopted))
    ]
  where
    reported :
        (r : Choice)
        → Scanned infos (record { best = []; best_ballot = 0; adopted = false }) r
        → r.adopted ≡ true
        → Reports infos r.best_ballot r.best
    reported r l h = elim l.origin [
      | inl e ↦ absurd (cc (ap (λ (x : Choice). x.adopted) e))
      | inr (_, reports) ↦ reports
    ]

-- Two majorities of the same group are more than the group together: they share a member.
pub majority_size_lem :
    (n : ℕ) → (n < majority_size n + majority_size n) × (0 < n → majority_size n ≤ n)
unfolding majority_size
majority_size_lem n = (omega arith, λ h. omega arith)
