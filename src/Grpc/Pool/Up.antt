-- ===== src/Grpc/Pool/Up.antt =====
-- `initPool` (pool.go) where every dial succeeds: the pool that it fills.
use rpc_pigeon.Common.{
  ℕ, zero, suc, ◌+◌, ◌≤◌, ◌<◌, ◌≡◌, refl, sym, ap, ◌∙◌, List, [], ◌∷◌, ◌++◌, append_assoc,
  append-nil, true, false, Option, none, some, arith, length, length-append, subst, ℤ, pos, ◌==◌,
}
use rpc_pigeon.Common.Run.{ret}
use rpc_pigeon.Grpc.Heap.{Time, Factory, Client, Chan, Pool, Heap, update}
use rpc_pigeon.Grpc.Pool.{new_pool, fresh_pool, fill, new_client, is_neg}
use rpc_pigeon.Grpc.Pool.Return.{filled}
use rpc_pigeon.Grpc.Pool.Fill.{fill-none, fill_up, after_round}
use rpc_pigeon.Grpc.Pool.Make.{allocated, new_pool_good, rounds_of}

-- The pools other than `p` are as before.
abbrev pub Elsewhere : ℕ → Heap → Heap → Type 0
Elsewhere p h h' = (q : ℕ) → (q == p) ≡ false → h'.pools q ≡ h.pools q

-- At `p` stands the pool with as many clients more in its channel.
abbrev pub FilledUp : Heap → ℕ → Pool → Chan → (rounds : ℕ) → Type 0
FilledUp h p pool ch rounds =
    (cs : List (Option Client)) × (length cs ≡ rounds)
    × (h.pools p ≡ some (record pool { clients = some (record ch { buf = ch.buf ++ cs }) }))

update-other :
    (h : Heap) (q p : ℕ) (pool : Pool) → (q == p) ≡ false → update h.pools p pool q ≡ h.pools q
update-other h q p pool other = rw other refl

fill_all :
    (rounds : ℕ) (h : Heap) (p : ℕ) (pool : Pool) (ch : Chan) (now : Time)
    → h.pools p ≡ some pool
    → pool.clients ≡ some ch
    → length ch.buf + rounds ≤ ch.cap
    → ((i : ℕ) → i < rounds → pool.factor (h.dials + i) ≡ true)
    → (h' : Heap) × (fill p rounds now h ≡ ret none h')
      × FilledUp h' p pool ch rounds
      × Elsewhere p h h'
      × (h'.next_pool ≡ h.next_pool)
fill_all zero h p pool ch now here e room up = (
  h,
  fill-none h p now,
  (
    [],
    refl,
    here
        ∙ ap (λ o. some (record pool { clients = o }))
            (e ∙ ap (λ b. some (record ch { buf = b })) (sym (append-nil ch.buf))),
  ),
  λ q other. refl,
  refl,
)
fill_all (suc rounds) h p pool ch now here e room up =
    let c = new_client p now h.dials in
    let first : pool.factor h.dials ≡ true =
      subst (λ n. pool.factor n ≡ true) (omega arith) (up 0 (omega arith)) in
    let (h', r, (cs, len, there), frame, same_next) =
      fill_all rounds (after_round h p pool ch now) p (record pool { clients = filled ch c })
        (record ch { buf = ch.buf ++ some c ∷ [] }) now (ground arith) refl
        (omega (arith, length-append ch.buf (some c ∷ [])))
        (λ i lt. subst (λ n. pool.factor n ≡ true) (omega arith) (up (suc i) (omega arith))) in
    (
      h',
      fill_up h p pool here rounds now ch e first (omega arith) ∙ r,
      (
        some c ∷ cs,
        omega (arith, len),
        there
            ∙ ap (λ b. some (record pool { clients = some (record ch { buf = b }) }))
                (append_assoc ch.buf (some c ∷ []) cs),
      ),
      λ q other. frame q other ∙ update-other h q p (record pool { clients = filled ch c }) other,
      same_next,
    )

-- A pool of `n` connections, all of which can be dialled.
pub new_pool_up :
    (factor : Factory) (n : ℕ) (idle life timeout mode : ℤ) (now : Time) (h : Heap)
    → is_neg idle ≡ false
    → is_neg life ≡ false
    → ((i : ℕ) → i < suc n → factor (h.dials + i) ≡ true)
    → (h' : Heap) × (new_pool (some factor) (pos (suc n)) (pos (suc n)) idle life timeout mode now h
        ≡ ret (some h.next_pool, none) h')
      × FilledUp h' h.next_pool
          (fresh_pool factor (pos (suc n)) idle life timeout mode)
          (record { cap = suc n; buf = [] })
          (suc n)
      × Elsewhere h.next_pool h h'
      × (h'.next_pool ≡ suc h.next_pool)
new_pool_up factor n idle life timeout mode now h good_idle good_life up =
    let pool = fresh_pool factor (pos (suc n)) idle life timeout mode in
    let rounds : rounds_of (pos (suc n)) (pos (suc n)) ≡ suc n = ground arith in
    let (h', r, f, frame, same_next) =
      fill_all (suc n) (allocated h pool) h.next_pool pool (record { cap = suc n; buf = [] }) now
        (ground arith) refl (omega arith) up in
    (
      h',
      new_pool_good factor (pos (suc n)) (pos (suc n)) idle life timeout mode now h none h'
          (rw (good_idle, good_life) (ground arith))
          (subst (λ m. fill h.next_pool m now (allocated h pool) ≡ ret none h') (sym rounds) r),
      f,
      λ q other. frame q other ∙ update-other h q h.next_pool pool other,
      same_next,
    )
