-- ===== src/Grpc/Gateway/Makes.antt =====
-- A pool that `newGrpcPool` (grpc.go) makes and the set-ups name.
use rpc_pigeon.Common.{
  ℕ, suc, ◌+◌, ◌<◌, ◌^◌, ◌≡◌, refl, ◌∙◌, ℤ, pos, int32-pos, true, false, Option, none, some, arith,
  length, if◌then◌else◌,
}
use rpc_pigeon.Common.Text.{Text, eq_text}
use rpc_pigeon.Common.Dict.{get, get-put}
use rpc_pigeon.Common.Run.{ret}
use rpc_pigeon.Grpc.Heap.{Error, Time, Factory, Chan, Pool, Heap, update, load_pool_at, store_pool}
use rpc_pigeon.Grpc.Pool.{is_neg, new_pool}
use rpc_pigeon.Grpc.Pool.Up.{Elsewhere, new_pool_up}
use rpc_pigeon.Grpc.Gateway.{
  Engine, asr, tts, Options, EngineConfig, Gate, seconds, new_grpc_pool, cluster_size, named,
  options, install, pools_of,
}

-- An open pool with a name and an address, whose channel is full.
abbrev pub PoolAs : (name addr : Text) (size : ℕ) → Heap → ℕ → Type 0
PoolAs name addr size h p =
    (pool : Pool) × (ch : Chan) × (h.pools p ≡ some pool)
    × (pool.clients ≡ some ch)
    × (length ch.buf ≡ size)
    × (ch.cap ≡ size)
    × (pool.capacity ≡ pos size)
    × (pool.name ≡ name)
    × (pool.pool_remote_addr ≡ addr)
    × (pool.status ≡ true)

named_at :
    (addr name : Text) (p : ℕ) (pool : Pool) (h : Heap)
    → h.pools p ≡ some pool
    → (h' : Heap) × (named addr name (some p, none) h ≡ ret p h')
      × (h'.pools p ≡ some (record pool { name = name; pool_remote_addr = addr }))
      × Elsewhere p h h'
      × (h'.next_pool ≡ h.next_pool)
unfolding store_pool
named_at addr name p pool h there = (
  record h { pools = update h.pools p (record pool { name = name; pool_remote_addr = addr }) },
  rw (load_pool_at p h pool there) refl,
  ground arith,
  λ q other. rw other refl,
  refl,
)

pub pools-install :
    (e : Engine) (op : Options) (name : Text) (p : ℕ) (g : Gate) (k : Text)
    → get (pools_of e (install (some e) op name p g)) k
      ≡ (if eq_text name k then some p else get (pools_of e g) k)
unfolding install
pools-install asr op name p g k = get-put g.globals.asr_pools name k p
pools-install tts op name p g k = get-put g.globals.tts_pools name k p

pub alone_size :
    (g : Gate) (n : ℤ) (h : Heap) → g.engine_cluster_enabled ≡ false → cluster_size g n h ≡ ret n h
unfolding cluster_size
alone_size g n h alone = rw alone refl

module _ (dial : Text → Factory) (now : Time) (c : EngineConfig) where
  made_at :
      (addr proxy : Text) (size : ℤ) (n : ℕ) (h h₁ : Heap) (r : Option ℕ × Option Error)
      → size ≡ pos (suc n)
      → suc n < 2 ^ 31
      → new_pool
          (some (dial addr))
          (pos (suc n))
          (pos (suc n))
          (seconds c.request_idle_time)
          (seconds c.request_max_life)
          (seconds c.request_timeout)
          c.pool_model
          now
          h
        ≡ ret r h₁
      → new_grpc_pool dial addr (options c size proxy) now h ≡ ret r h₁
  unfolding new_grpc_pool
  made_at addr proxy size n h h₁ r exact small made = rw (exact, int32-pos (suc n) small) made

  -- Every dial succeeds: the pool is made and named.
  pub made_named :
      (addr name proxy : Text) (size : ℤ) (n : ℕ) (h : Heap)
      → size ≡ pos (suc n)
      → suc n < 2 ^ 31
      → is_neg (seconds c.request_idle_time) ≡ false
      → is_neg (seconds c.request_max_life) ≡ false
      → ((i : ℕ) → i < suc n → dial addr (h.dials + i) ≡ true)
      → (h₁ : Heap) × (h₂ : Heap) × (new_grpc_pool dial addr (options c size proxy) now h
          ≡ ret (some h.next_pool, none) h₁)
        × (named addr name (some h.next_pool, none) h₁ ≡ ret h.next_pool h₂)
        × PoolAs name addr (suc n) h₂ h.next_pool
        × Elsewhere h.next_pool h h₂
        × (h₂.next_pool ≡ suc h.next_pool)
  made_named addr name proxy size n h exact small idle life up =
      let (h₁, made, (cs, len, there), frame, next) =
        new_pool_up (dial addr) n (seconds c.request_idle_time) (seconds c.request_max_life)
          (seconds c.request_timeout) c.pool_model now h idle life up in
      let (h₂, is_named, there₂, frame₂, next₂) = named_at addr name h.next_pool _ h₁ there in
      (
        h₁,
        h₂,
        made_at addr proxy size n h h₁ _ exact small made,
        is_named,
        (_, record { cap = suc n; buf = cs }, there₂, refl, len, refl, refl, refl, refl, refl),
        λ q other. frame₂ q other ∙ frame q other,
        next₂ ∙ next,
      )
