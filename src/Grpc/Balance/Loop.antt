-- ===== src/Grpc/Balance/Loop.antt =====
-- The loop of `balancePool` finds a pool that is up and has the most idle connections.
use rpc_pigeon.Common.{
  ℕ, suc, ◌+◌, ◌≤◌, ◌<◌, ◌≡◌, refl, inl, inr, [], ◌∷◌, Bool, true, false, none, some, leb,
  if◌then◌else◌, length, All, All-snoc, length-append, arith, Bool-cases, is_some, of_is_some,
}
use rpc_pigeon.Common.Text.{Text}
use rpc_pigeon.Common.Dict.{Dict, Has}
use rpc_pigeon.Common.Run.{ret}
use rpc_pigeon.Grpc.Heap.{Heap, Pool, load_pool_at}
use rpc_pigeon.Grpc.Pool.{pool_size}
use rpc_pigeon.Grpc.Balance.{Scan, visit, scan}

-- The pool at a pointer is up, and its idle connections.
abbrev pub status_at : Heap → ℕ → Bool
status_at h p = elim (h.pools p) [ none ↦ false | some pool ↦ pool.status ]

abbrev pub size_at : Heap → ℕ → ℕ
size_at h p = elim (h.pools p) [ none ↦ 0 | some pool ↦ pool_size pool ]

-- The entries point to pools.
abbrev pub Made : Heap → Dict ℕ → Type 0
Made h = All (λ e. is_some (h.pools (e.1)) ≡ true)

-- No pool of the entries that is up has more idle connections than `n`.
abbrev pub AtMost : Heap → ℕ → Dict ℕ → Type 0
AtMost h n = All (λ e. status_at h (e.1) ≡ true → size_at h (e.1) ≤ n)

-- An entry whose pool is up, by its key.
abbrev pub UpEntry : Heap → Dict ℕ → Text → Type 0
UpEntry h pools k = (p : ℕ) × Has k p pools × (status_at h p ≡ true)

-- How many entries have a pool that is up.
abbrev pub ups : Heap → Dict ℕ → ℕ
ups h [] = 0
ups h ((k, p) ∷ pools) = if status_at h p then suc (ups h pools) else ups h pools

-- The index of the loop is the key of a pool that is up and has the size noted.
abbrev pub Chosen : Heap → Dict ℕ → Scan → Type 0
Chosen h all s = (p : ℕ) × Has s.index p all × (status_at h p ≡ true) × (size_at h p ≡ s.size)

-- What the loop finds when it visits `pools`, a part of `all`.
pub record Best (h : Heap) (all pools : Dict ℕ) (before after : Scan) : Type 0 where
  pub at_most : AtMost h after.size pools
  pub grows : before.size ≤ after.size
  pub bounded : before.size ≤ before.sum_size → after.size ≤ after.sum_size
  pub keeps : Chosen h all before → Chosen h all after
  pub found : before.size ≡ 0 → 0 < ups h pools → Chosen h all after
  pub unfound : ups h pools ≡ 0 → after ≡ before
  pub random : All (UpEntry h all) before.index_rand → All (UpEntry h all) after.index_rand
  pub counted : length after.index_rand ≡ length before.index_rand + ups h pools

-- The pure form of the loop.
walk : Heap → Dict ℕ → Scan → Scan
walk h [] s = s
walk h ((k, p) ∷ pools) s =
    walk h pools (elim (h.pools p) [ none ↦ s | some pool ↦ visit k pool s ])

scan-walk :
    (h : Heap) (pools : Dict ℕ) (s : Scan) → Made h pools → scan pools s h ≡ ret (walk h pools s) h
unfolding scan walk
scan-walk h [] s made = refl
scan-walk h ((k, p) ∷ pools) s made =
    let (pool, here) = of_is_some (h.pools p) made.0 in
    rw (load_pool_at p h pool here, here) (scan-walk h pools (visit k pool s) made.1)

Best-down :
    (h : Heap) (all pools : Dict ℕ) (k : Text) (p : ℕ) (pool : Pool) (s after : Scan)
    → h.pools p ≡ some pool
    → pool.status ≡ false
    → Best h all pools (visit k pool s) after
    → Best h all ((k, p) ∷ pools) s after
unfolding visit
Best-down h all pools k p pool s after here down b = record {
  at_most = (λ up. absurd (ground arith), b.at_most);
  grows = ground arith;
  bounded = λ le. ground (arith, b.bounded);
  keeps = λ c. b.keeps (rw down c);
  found = λ zero_size some_up. b.found (ground arith) (ground arith);
  unfound = λ none_up. ground (arith, b.unfound);
  random = λ own. b.random (ground arith);
  counted = ground arith;
}

Best-up :
    (h : Heap) (all pools : Dict ℕ) (k : Text) (p : ℕ) (pool : Pool) (s after : Scan)
    → h.pools p ≡ some pool
    → pool.status ≡ true
    → Has k p all
    → Best h all pools (visit k pool s) after
    → Best h all ((k, p) ∷ pools) s after
unfolding visit
Best-up h all pools k p pool s after here up among b = record {
  at_most = (λ _. ground (arith, b.grows), b.at_most);
  grows = ground arith;
  bounded = λ le. ground (arith, b.bounded);
  keeps = λ c. b.keeps (visit-Chosen c);
  found = λ zero_size some_up. b.keeps (visit-first zero_size);
  unfound = λ none_up. absurd (ground arith);
  random = λ own. b.random (rw up (All-snoc (UpEntry h all) s.index_rand k own (p, among, is_up)));
  counted = ground (arith, b.counted, length-append s.index_rand (k ∷ []));
}
  where
    is_up : status_at h p ≡ true
    is_up = ground arith

    is_size : size_at h p ≡ pool_size pool
    is_size = ground arith

    new : leb s.size (pool_size pool) ≡ true → Chosen h all (visit k pool s)
    new le = rw (up, le) (p, among, is_up, is_size)

    visit-first : s.size ≡ 0 → Chosen h all (visit k pool s)
    visit-first zero_size = new (ground arith)

    visit-Chosen : Chosen h all s → Chosen h all (visit k pool s)
    visit-Chosen c = elim (Bool-cases (leb s.size (pool_size pool))) [
      | inl le ↦ new le
      | inr gt ↦ rw (up, gt) c
    ]

walk-Best :
    (h : Heap) (all pools : Dict ℕ) (s : Scan)
    → Made h pools
    → ((k : Text) (p : ℕ) → Has k p pools → Has k p all)
    → Best h all pools s (walk h pools s)
unfolding walk
walk-Best h all [] s made among = record {
  at_most = tt;
  grows = omega arith;
  bounded = λ le. le;
  keeps = λ c. c;
  found = λ zero_size none_up. absurd (omega arith);
  unfound = λ none_up. refl;
  random = λ own. own;
  counted = omega arith;
}
walk-Best h all ((k, p) ∷ pools) s made among =
    let (pool, here) = of_is_some (h.pools p) made.0 in
    let rest = walk-Best h all pools (visit k pool s) made.1 (λ j q has. among j q (inr has)) in
    elim (Bool-cases pool.status) [
      | inl up ↦
          rw here (Best-up h all pools k p pool s _ here up (among k p (inl (refl, refl))) rest)
      | inr down ↦ rw here (Best-down h all pools k p pool s _ here down rest)
    ]

-- The loop over all entries returns, changes nothing, and has found the best of them.
pub scan-Best :
    (h : Heap) (pools : Dict ℕ) (s : Scan)
    → Made h pools
    → (after : Scan) × (scan pools s h ≡ ret after h) × Best h pools pools s after
scan-Best h pools s made =
    (walk h pools s, scan-walk h pools s made, walk-Best h pools pools s made (λ k p has. has))
