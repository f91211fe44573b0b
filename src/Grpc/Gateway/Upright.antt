-- ===== src/Grpc/Gateway/Upright.antt =====
-- Maps of pools (grpc.go) whose pools are all made and up.
use rpc_pigeon.Common.{ℕ, ◌<◌, ◌≤◌, ◌≡◌, ◌∙◌, [], ◌∷◌, true, some, All, arith, if_cases}
use rpc_pigeon.Common.Text.{Text, eq_text}
use rpc_pigeon.Common.Dict.{Distinct-put, Dict, put, Distinct}
use rpc_pigeon.Grpc.Heap.{Heap, Pool}
use rpc_pigeon.Grpc.Gateway.{Engine, asr, tts, Options, Gate, install, pools_of}

-- The pool at the pointer is made and up.
abbrev pub Stands : Heap → ℕ → Type 0
Stands h p = (p < h.next_pool) × (pool : Pool) × (h.pools p ≡ some pool) × (pool.status ≡ true)

abbrev pub Upright : Heap → Dict ℕ → Type 0
Upright h pools = All (λ (e : Text × ℕ). Stands h (e.1)) pools × Distinct pools

All-put :
    (P : ℕ → Type 0) (m : Dict ℕ) (k : Text) (p : ℕ)
    → P p
    → All (λ (e : Text × ℕ). P (e.1)) m
    → All (λ (e : Text × ℕ). P (e.1)) (put m k p)
unfolding put
All-put P [] k p new h = (new, tt)
All-put P ((j, q) ∷ m) k p new (here, h) =
    if_cases (All (λ (e : Text × ℕ). P (e.1))) (eq_text j k) ((j, p) ∷ m) ((j, q) ∷ put m k p)
      (λ e. (new, h)) (λ e. (here, All-put P m k p new h))

-- What is made later leaves the pools before as they are.
pub Upright-frame :
    (h h' : Heap) (pools : Dict ℕ)
    → ((q : ℕ) → q < h.next_pool → h'.pools q ≡ h.pools q)
    → h.next_pool ≤ h'.next_pool
    → Upright h pools
    → Upright h' pools
Upright-frame h h' [] keeps grows (all, d) = (tt, d)
Upright-frame h h' ((k, p) ∷ pools) keeps grows (((lt, pool, there, up), all), (fresh, d)) =
    let (later, _) = Upright-frame h h' pools keeps grows (all, d) in
    (((omega (arith, lt, grows), pool, keeps p lt ∙ there, up), later), (fresh, d))

pub Upright-install :
    (e : Engine) (op : Options) (name : Text) (p : ℕ) (g : Gate) (h : Heap) (d : Engine)
    → Stands h p
    → Upright h (pools_of d g)
    → Upright h (pools_of d (install (some e) op name p g))
unfolding install
Upright-install asr op name p g h asr new (all, apart) = (
  All-put (Stands h) g.globals.asr_pools name p new all,
  Distinct-put g.globals.asr_pools name p apart,
)
Upright-install asr op name p g h tts new ok = ok
Upright-install tts op name p g h asr new ok = ok
Upright-install tts op name p g h tts new (all, apart) = (
  All-put (Stands h) g.globals.tts_pools name p new all,
  Distinct-put g.globals.tts_pools name p apart,
)
