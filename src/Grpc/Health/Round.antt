-- ===== src/Grpc/Health/Round.antt =====
-- What a round of the health task leaves in the pools.
use rpc_pigeon.Common.{
  ℕ, zero, suc, ◌+◌, ◌<◌, ◌≤◌, ◌≡◌, ◌≢◌, ◌↔◌, refl, inl, inr, [], ◌∷◌, Bool, true, false, not, some,
  arith, All, Bool-cases, is_some, of_is_some, if◌then◌else◌, ◌==◌,
}
use rpc_pigeon.Common.Text.{Text}
use rpc_pigeon.Common.Dict.{Dict}
use rpc_pigeon.Common.Run.{ret}
use rpc_pigeon.Grpc.Heap.{Pool, Heap, update, load_pool_at, store_pool}
use rpc_pigeon.Grpc.Health.{retry, check_status, check_pool, check_pools}

retry_iff :
    (probe : ℕ → Bool) (rounds i : ℕ)
    → (retry probe rounds i ≡ true) ↔ ((j : ℕ) × (i ≤ j) × (j < i + rounds) × (probe j ≡ true))
unfolding retry
retry_iff probe zero i = (λ e. absurd (cc), λ (j, le, lt, up). absurd (omega arith))
retry_iff probe (suc rounds) i = elim (Bool-cases (probe i)) [
  | inl up ↦ (λ e. (i, omega arith, omega arith, up), λ x. rw up refl)
  | inr down ↦
      let (there, back) = retry_iff probe rounds (suc i) in
      (
        λ e. let (j, le, lt, up) = there (rw down at e) in (j, omega arith, omega arith, up),
        λ (j, le, lt, up).
            let later : i ≢ j = λ same. cc (up, down, same) in
            rw down (back (j, omega (arith, later), omega arith, up)),
      )
]

-- A pool counts as up exactly if one of the first six attempts succeeds.
check_status_iff :
    (probe : ℕ → Bool) → (check_status probe ≡ true) ↔ ((j : ℕ) × (j < 6) × (probe j ≡ true))
unfolding check_status
check_status_iff probe = elim (Bool-cases (probe 0)) [
  | inl up ↦ (λ e. (0, omega arith, up), λ x. rw up refl)
  | inr down ↦
      let (there, back) = retry_iff probe 5 1 in
      (
        λ e. let (j, le, lt, up) = there (rw down at e) in (j, omega arith, up),
        λ (j, lt, up).
            let later : 0 ≢ j = λ same. cc (up, down, same) in
            rw down (back (j, omega (arith, later), omega arith, up)),
      )
]

-- A pool with the status that its probes give it.
abbrev pub judged : (Text → ℕ → Bool) → Pool → Pool
judged probe pool = record pool { status = check_status (probe pool.pool_remote_addr) }

-- The pointer is among those of the entries.
abbrev pub among : ℕ → Dict ℕ → Bool
among q [] = false
among q ((k, p) ∷ pools) = if q == p then true else among q pools

abbrev marked : (Text → ℕ → Bool) → Heap → ℕ → Pool → Heap
marked probe h p pool = record h { pools = update h.pools p (judged probe pool) }

module _ (probe : Text → ℕ → Bool) where
  check_pool_at :
      (h : Heap) (p : ℕ) (pool : Pool)
      → h.pools p ≡ some pool
      → check_pool probe p h
        ≡ ret (not (check_status (probe pool.pool_remote_addr))) (marked probe h p pool)
  unfolding check_pool store_pool
  check_pool_at h p pool here = rw (load_pool_at p h pool here) refl

  -- Each entry's pool is made.
  abbrev pub Made : Heap → Dict ℕ → Type 0
  Made h = All (λ e. is_some (h.pools (e.1)) ≡ true)

  Made-marked :
      (h : Heap) (p : ℕ) (pool : Pool) (pools : Dict ℕ)
      → Made h pools
      → Made (marked probe h p pool) pools
  Made-marked h p pool [] m = tt
  Made-marked h p pool ((k, q) ∷ pools) m = (ground arith, Made-marked h p pool pools m.1)

  -- The pools after a round.
  abbrev pub After : Heap → Dict ℕ → Heap → Type 0
  After h pools h' =
      (q : ℕ) (pool : Pool)
      → h.pools q ≡ some pool
      → h'.pools q ≡ some (if among q pools then judged probe pool else pool)

  After-marked :
      (h : Heap) (k : Text) (p : ℕ) (pool : Pool) (pools : Dict ℕ) (h' : Heap)
      → h.pools p ≡ some pool
      → After (marked probe h p pool) pools h'
      → After h ((k, p) ∷ pools) h'
  After-marked h k p pool pools h' here after q pool' there = elim (Bool-cases (q == p)) [
    | inl same ↦
        let at_p : q ≡ p = ground arith in
        let now : h'.pools q
            ≡ some (if among q pools then judged probe pool else judged probe pool) =
          after q (judged probe pool) (ground arith) in
        let is : pool' ≡ pool = ground arith in
        let all : h'.pools q ≡ some (judged probe pool) = elim (Bool-cases (among q pools)) [
          | inl a ↦ rw a at now
          | inr n ↦ rw n at now
        ] in
        rw (same, is) all
    | inr other ↦ rw other (after q pool' (ground arith))
  ]

  -- A round of the health task over pools that are made returns, and afterwards each of them is up
  -- exactly as one of the six attempts at its address succeeds; nothing else of the pools has changed.
  pub round_total :
      (h : Heap) (pools : Dict ℕ) (failed : Bool)
      → Made h pools
      → (failed' : Bool) × (h' : Heap) × (check_pools probe pools failed h ≡ ret failed' h')
        × After h pools h'
        × ((addr : Text)
            → (check_status (probe addr) ≡ true) ↔ ((j : ℕ) × (j < 6) × (probe addr j ≡ true)))
  unfolding check_pools
  round_total h [] failed made =
      (failed, h, refl, (λ q pool here. here), λ addr. check_status_iff (probe addr))
  round_total h ((k, p) ∷ pools) failed made =
      let (pool, here) = of_is_some (h.pools p) made.0 in
      let (failed', h', e, after, iff) =
        round_total (marked probe h p pool) pools (not (check_status (probe pool.pool_remote_addr)))
          (Made-marked h p pool pools made.1) in
      (
        failed',
        h',
        rw (check_pool_at h p pool here) e,
        After-marked h k p pool pools h' here after,
        iff,
      )
