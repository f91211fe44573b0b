-- ===== src/Grpc/Balance/Choice.antt =====
-- What `balancePool` (options.go) returns.
use rpc_pigeon.Common.{
  ℕ, suc, ◌≤◌, ◌<◌, ◌≡◌, refl, inl, inr, List, [], ◌∷◌, true, some, get_elem?, length, All, arith,
  Bool-cases, get_elem?-All, ◌==◌,
}
use rpc_pigeon.Common.Text.{Text}
use rpc_pigeon.Common.Dict.{Dict, get, Has, Distinct, get_of_Has}
use rpc_pigeon.Common.Run.{ret, panic}
use rpc_pigeon.Grpc.Heap.{Heap}
use rpc_pigeon.Grpc.Balance.{Scan, start, scan, chosen, random_of, balance_pool}
use rpc_pigeon.Grpc.Balance.Loop.{status_at, size_at, Made, AtMost, UpEntry, ups, Best, scan-Best}

-- `rand.Intn(n)` for a positive `n` is at least 0 and less than `n`.
abbrev pub IntnLaw : (ℕ → ℕ) → Type 0
IntnLaw intn = (n : ℕ) → intn (suc n) < suc n

AtMost-mono : (h : Heap) (m n : ℕ) (pools : Dict ℕ) → m ≤ n → AtMost h m pools → AtMost h n pools
AtMost-mono h m n [] le a = tt
AtMost-mono h m n ((k, p) ∷ pools) le a =
    (λ up. ground (arith, a.0 up), AtMost-mono h m n pools le a.1)

random_of_at :
    (intn : ℕ → ℕ) (h : Heap) (k : Text) (ks : List Text) (j : Text)
    → get_elem? (k ∷ ks) (intn (length (k ∷ ks))) ≡ some j
    → random_of intn (k ∷ ks) h ≡ ret j h
random_of_at intn h k ks j e = ground arith

random_of-UpEntry :
    (intn : ℕ → ℕ) (h : Heap) (all : Dict ℕ) (ks : List Text)
    → IntnLaw intn
    → All (UpEntry h all) ks
    → 0 < length ks
    → (k : Text) × (random_of intn ks h ≡ ret k h) × UpEntry h all k
random_of-UpEntry intn h all [] law own more = absurd (omega arith)
random_of-UpEntry intn h all (k ∷ ks) law own more =
    let (j, e, up) =
      get_elem?-All (UpEntry h all) (k ∷ ks) (intn (length (k ∷ ks))) own (law (length ks)) in
    (j, random_of_at intn h k ks j e, up)

-- The key that is chosen after the loop.
chosen-Best :
    (intn : ℕ → ℕ) (h : Heap) (pools : Dict ℕ) (after : Scan)
    → IntnLaw intn
    → 0 < ups h pools
    → Best h pools pools start after
    → (k : Text) × (p : ℕ) × (chosen intn after h ≡ ret k h)
      × Has k p pools
      × (status_at h p ≡ true)
      × AtMost h (size_at h p) pools
unfolding chosen
chosen-Best intn h pools after law more b = elim (Bool-cases (after.sum_size == 0)) [
  | inl empty ↦
      let (k, e, (p, has, up)) =
        random_of-UpEntry intn h pools after.index_rand law (b.random tt)
          (omega (arith, b.counted)) in
      (
        k,
        p,
        rw empty e,
        has,
        up,
        AtMost-mono h after.size (size_at h p) pools (ground (arith, b.bounded)) b.at_most,
      )
  | inr some_idle ↦
      let (p, has, up, size) = b.found refl more in
      (
        after.index,
        p,
        rw some_idle,
        has,
        up,
        AtMost-mono h after.size (size_at h p) pools (omega (arith, size)) b.at_most,
      )
]

module _ (intn : ℕ → ℕ) (h : Heap) (e f : Text × ℕ) (rest : Dict ℕ)
    (made : Made h (e ∷ f ∷ rest)) where
  abbrev pools : Dict ℕ
  pools = e ∷ f ∷ rest

  balance_pool_at :
      (after : Scan) (k : Text) (p : ℕ)
      → scan pools start h ≡ ret after h
      → chosen intn after h ≡ ret k h
      → get pools k ≡ some p
      → balance_pool intn pools h ≡ ret (some p) h
  unfolding balance_pool
  balance_pool_at after k p scanned chose found = rw (scanned, chose, found)

  -- With two pools or more, some of them up, `balancePool` returns a pool of the map that is up, and no
  -- pool that is up has more idle connections; it changes nothing. (The keys of a map are distinct,
  -- its values point to pools, and `rand.Intn` is in its range.)
  pub balance_pool_best :
      IntnLaw intn
      → Distinct pools
      → 0 < ups h pools
      → (k : Text) × (p : ℕ) × (balance_pool intn pools h ≡ ret (some p) h)
        × Has k p pools
        × (status_at h p ≡ true)
        × AtMost h (size_at h p) pools
  balance_pool_best law distinct more =
      let (after, scanned, best) = scan-Best h pools start made in
      let (k, p, chose, has, up, most) = chosen-Best intn h pools after law more best in
      (
        k,
        p,
        balance_pool_at after k p scanned chose (get_of_Has pools k p distinct has),
        has,
        up,
        most,
      )

  -- With two pools or more, all of them down, `balancePool` panics: it asks `rand.Intn` for a number
  -- below 0.
  pub balance_pool_all_down : ups h pools ≡ 0 → balance_pool intn pools h ≡ panic h
  unfolding balance_pool
  balance_pool_all_down none_up =
      let (after, scanned, best) = scan-Best h pools start made in
      rw (scanned, best.unfound none_up)
