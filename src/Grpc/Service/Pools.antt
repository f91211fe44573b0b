-- ===== src/Grpc/Service/Pools.antt =====
-- The pools that grpc.go makes, names and releases: each of its functions is a sequence of calls of
-- the pools.
use rpc_pigeon.Common.{
  ℕ, zero, suc, int64, ◌+ℤ◌, if◌then◌else◌, ◌<◌, ◌^◌, ◌≡◌, refl, inl, inr, ℤ, pos, negsuc, int32,
  int32-lt, List, [], ◌∷◌, ◌++◌, Bool, Option, none, some, Bool-cases, arith, All, ◌∙◌,
}
use rpc_pigeon.Common.Text.{Text, eq_text, to_lower}
use rpc_pigeon.Common.Dict.{get}
use rpc_pigeon.Common.Run.{Run, ret, ◌>>=◌, and_then, and_then-eq-ret, ret-eq-ret}
use rpc_pigeon.Grpc.Heap.{
  Error, Time, Factory, Client, Heap, Exec, pure, Pool, load_pool, store_pool,
}
use rpc_pigeon.Grpc.Pool.{new_pool, close}
use rpc_pigeon.Grpc.Pool.Acquire.{KnownMode}
use rpc_pigeon.Grpc.Pool.Make.{new_pool_bad}
use rpc_pigeon.Grpc.System.{Sys, make, shut, mark, marked, Reach, here, next}
use rpc_pigeon.Grpc.Gateway.{
  Engine, asr, engine_of, Options, EngineConfig, Gate, seconds, new_grpc_pool, cluster_size, named,
  options, install, Found, by_omp_engine, init_grpc_pool_by_omp, released, release_grpc_pool,
  pools_of, quotient, is_even,
}

pub Reach-trans : {s t u : Sys} → Reach s t → Reach t u → Reach s u
Reach-trans a here = a
Reach-trans a (next b step) = next (Reach-trans a b) step

-- The store is now `h`, by calls of the pools.
abbrev pub Goes : Sys → Heap → Type 0
Goes s h = Reach s (record s { heap = h })

pub Goes-trans : (s : Sys) (h k : Heap) → Goes s h → Goes (record s { heap = h }) k → Goes s k
Goes-trans s h k a b = Reach-trans a b

pub Goes-same : (s : Sys) (h : Heap) → h ≡ s.heap → Goes s h
Goes-same s h e = rw e here

-- A size that is not positive makes no pool.
new_pool-Goes :
    (s : Sys) (factor : Factory) (init size idle life timeout mode : ℤ) (now : Time)
    (r : Option ℕ × Option Error) (h : Heap)
    → ((n : ℕ) → size ≡ pos n → n < 2 ^ 31)
    → KnownMode mode
    → new_pool (some factor) init size idle life timeout mode now s.heap ≡ ret r h
    → Goes s h
new_pool-Goes s factor init (pos n) idle life timeout mode now r h fits known e =
    next here (make (some factor) init n idle life timeout mode now r h known (fits n refl) e)
new_pool-Goes s factor init (negsuc n) idle life timeout mode now r h fits known e =
    Goes-same s h
      (ret-eq-ret
        (new_pool_bad factor init (negsuc n) idle life timeout mode now s.heap (ground arith)) e).1

new_grpc_pool-Goes :
    (s : Sys) (dial : Text → Factory) (addr : Text) (op : Options) (now : Time)
    (r : Option ℕ × Option Error) (h : Heap)
    → KnownMode op.pool_model
    → new_grpc_pool dial addr op now s.heap ≡ ret r h
    → Goes s h
unfolding new_grpc_pool
new_grpc_pool-Goes s dial addr op now r h known e =
    new_pool-Goes s (dial addr) (int32 op.max_idle) (int32 op.max_active)
      (seconds op.request_idle_time) (seconds op.request_max_life) (seconds op.request_time_out)
      op.pool_model now r h (int32-lt op.max_active) known e

pub loaded :
    (p : ℕ) (h h₁ : Heap) (pool : Pool)
    → load_pool p h ≡ ret pool h₁
    → (h.pools p ≡ some pool) × (h₁ ≡ h)
unfolding load_pool
loaded p h h₁ pool e = (ground arith, ground arith)

-- A pool is written with another name, address or state.
pub store-Goes :
    (s : Sys) (p : ℕ) (pool : Pool) (name addr : Text) (status : Bool) (h : Heap)
    → s.heap.pools p ≡ some pool
    → store_pool p (record pool { name = name; pool_remote_addr = addr; status = status }) s.heap
      ≡ ret tt h
    → Goes s h
unfolding store_pool
store-Goes s p pool name addr status h there e =
    let same : h ≡ marked p pool name addr status s.heap = ground arith in
    rw same (next here (mark p pool name addr status there))

named-Goes :
    (s : Sys) (addr name : Text) (r : Option ℕ × Option Error) (p : ℕ) (h : Heap)
    → named addr name r s.heap ≡ ret p h
    → Goes s h
named-Goes s addr name (o, some err) p h e = absurd (cc)
named-Goes s addr name (none, none) p h e = absurd (cc)
named-Goes s addr name (some q, none) p h e =
    let (pool, h₁, e₁, e₂) = and_then-eq-ret (load_pool q s.heap) _ e in
    let (there, same) = loaded q s.heap h₁ pool e₁ in
    let (u, h₂, e₃, e₄) =
      and_then-eq-ret (store_pool q (record pool { name = name; pool_remote_addr = addr }) h₁) _
        e₂ in
    let ends : h ≡ h₂ = ground arith in
    rw ends (store-Goes s q pool name addr pool.status h₂ there (rw same at e₃))

quotient-heap : (a b : ℤ) (h : Heap) (m : ℤ) (h' : Heap) → quotient a b h ≡ ret m h' → h' ≡ h
unfolding quotient
quotient-heap a (pos zero) h m h' e = absurd (cc)
quotient-heap (pos a) (pos (suc b)) h m h' e = ground arith
quotient-heap (negsuc a) (pos (suc b)) h m h' e = ground arith
quotient-heap (pos a) (negsuc b) h m h' e = ground arith
quotient-heap (negsuc a) (negsuc b) h m h' e = ground arith

pub cluster_size-heap :
    (g : Gate) (n : ℤ) (h : Heap) (m : ℤ) (h' : Heap) → cluster_size g n h ≡ ret m h' → h' ≡ h
unfolding cluster_size
cluster_size-heap g n h m h' e = elim (Bool-cases g.engine_cluster_enabled) [
  | inl on ↦
      let e' : and_then (quotient n g.engine_cluster_node_num h)
            (λ q. ret (if is_even n then q else int64 (q +ℤ pos 1)))
          ≡ ret m h' =
        rw on at e in
      let (q, h₁, e₁, e₂) = and_then-eq-ret (quotient n g.engine_cluster_node_num h) _ e' in
      let ends : h' ≡ h₁ = ground arith in
      ends ∙ quotient-heap n g.engine_cluster_node_num h q h₁ e₁
  | inr off ↦ let e' : ◌≡◌ {A = Run Heap ℤ} (ret n h) (ret m h') = rw off at e in ground arith
]

-- A pool is made, named and installed.
module _ (dial : Text → Factory) (now : Time) where
  -- The common end of both set-ups.
  abbrev pub built : Text → Text → Options → Option Engine → Gate → Exec Gate
  built addr name op engine g = do
    r ← new_grpc_pool dial addr op now
    p ← named addr name r
    pure (install engine op name p g)

  pub built-Goes :
      (s : Sys) (addr name : Text) (op : Options) (engine : Option Engine) (g g' : Gate) (h : Heap)
      → KnownMode op.pool_model
      → built addr name op engine g s.heap ≡ ret g' h
      → Goes s h
  built-Goes s addr name op engine g g' h known e =
      let (r, h₁, e₁, e₂) = and_then-eq-ret (new_grpc_pool dial addr op now s.heap) _ e in
      let (p, h₂, e₃, e₄) = and_then-eq-ret (named addr name r h₁) _ e₂ in
      let ends : h ≡ h₂ = ground arith in
      rw ends (
        Goes-trans s h₁ h₂ (new_grpc_pool-Goes s dial addr op now r h₁ known e₁)
          (named-Goes (record s { heap = h₁ }) addr name r p h₂ e₃))

  by_omp_engine-Goes :
      (s : Sys) (found : Found) (c : EngineConfig) (g g' : Gate) (h : Heap)
      → KnownMode c.pool_model
      → by_omp_engine dial now found c g s.heap ≡ ret g' h
      → Goes s h
  unfolding by_omp_engine
  by_omp_engine-Goes s found c g g' h known e =
      let addr = found.server_host ++ b':' ∷ c.engine_server_port in
      let op = options c found.engine_cc_num addr in
      elim (Bool-cases (eq_text (to_lower c.engine_name) found.engine_type)) [
        | inl same ↦
            let e' : and_then (cluster_size g found.engine_cc_num s.heap)
                  (λ n. built addr found.scene_code op (engine_of found.engine_type) g)
                ≡ ret g' h =
              rw same at e in
            let (n, h₁, e₁, e₂) =
              and_then-eq-ret (cluster_size g found.engine_cc_num s.heap) _ e' in
            built-Goes s addr found.scene_code op (engine_of found.engine_type) g g' h known
              (rw (cluster_size-heap g found.engine_cc_num s.heap n h₁ e₁) at e₂)
        | inr other ↦
            let e' : ◌≡◌ {A = Run Heap Gate} (ret g s.heap) (ret g' h) = rw other at e in
            Goes-same s h (ground arith)
      ]

  pub init_grpc_pool_by_omp-Goes :
      (s : Sys) (found : Found) (cs : List EngineConfig) (g g' : Gate) (h : Heap)
      → All (λ c. KnownMode c.pool_model) cs
      → init_grpc_pool_by_omp dial now found cs g s.heap ≡ ret g' h
      → Goes s h
  unfolding init_grpc_pool_by_omp
  init_grpc_pool_by_omp-Goes s found [] g g' h known e = Goes-same s h (ground arith)
  init_grpc_pool_by_omp-Goes s found (c ∷ cs) g g' h known e =
      let (g₁, h₁, e₁, e₂) = and_then-eq-ret (by_omp_engine dial now found c g s.heap) _ e in
      Goes-trans s h₁ h (by_omp_engine-Goes s found c g g₁ h₁ known.0 e₁)
        (init_grpc_pool_by_omp-Goes (record s { heap = h₁ }) found cs g₁ g' h known.1 e₂)

-- A release closes a pool, and leaves its idle clients to the goroutine of `Close`.
abbrev pub GoesLeaving : Sys → Heap → List (Option Client) → Type 0
GoesLeaving s h left = Reach s (record s { heap = h; doomed = left ++ s.doomed })

released-Goes :
    (s : Sys) (e : Engine) (name : Text) (g g' : Gate) (o : Option ℕ) (left : List (Option Client))
    (h : Heap)
    → released e name g o s.heap ≡ ret (g', left) h
    → GoesLeaving s h left
released-Goes s e name g g' none left h run =
    let same : left ≡ [] = ground arith in
    let ends : h ≡ s.heap = ground arith in rw (same, ends) here
released-Goes s e name g g' (some p) left h run =
    let (x, h₁, e₁, e₂) = and_then-eq-ret (close p s.heap) _ run in
    let ends : h ≡ h₁ = ground arith in
    let same : left ≡ x = ground arith in rw (ends, same) (next here (shut p x h₁ e₁))

at_engine :
    (s : Sys) (name : Text) (g g' : Gate) (left : List (Option Client)) (h : Heap)
    (o : Option Engine)
    → (elim o as (λ _. Exec (Gate × List (Option Client))) [
      | none ↦ pure (g, [])
      | some e ↦ released e name g (get (pools_of e g) name)
    ])
        s.heap
      ≡ ret (g', left) h
    → GoesLeaving s h left
at_engine s name g g' left h none run = released-Goes s asr name g g' none left h run
at_engine s name g g' left h (some e) run =
    released-Goes s e name g g' (get (pools_of e g) name) left h run

pub release_grpc_pool-Goes :
    (s : Sys) (name engine : Text) (g g' : Gate) (left : List (Option Client)) (h : Heap)
    → release_grpc_pool name engine g s.heap ≡ ret (g', left) h
    → GoesLeaving s h left
unfolding release_grpc_pool
release_grpc_pool-Goes s name engine g g' left h run =
    at_engine s name g g' left h (engine_of (to_lower engine)) run
