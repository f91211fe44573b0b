-- ===== src/Grpc/Service/Rounds.antt =====
-- A round of discovery is a sequence of calls of the pools.
use rpc_pigeon.Common.{
  ℕ, ◌≡◌, ℤ, int32, eqb_ℤ, List, [], ◌∷◌, ◌++◌, Option, none, some, inl, inr, Bool-cases, arith,
  All, append_assoc,
}
use rpc_pigeon.Common.Text.{Text, split, eq_text}
use rpc_pigeon.Common.Run.{Run, ret, and_then, and_then-eq-ret}
use rpc_pigeon.Grpc.Heap.{Client, Heap, Exec, pure, load_pool}
use rpc_pigeon.Grpc.Pool.Acquire.{KnownMode}
use rpc_pigeon.Grpc.System.{Sys, here}
use rpc_pigeon.Grpc.Gateway.{Gate, EngineConfig, release_grpc_pool}
use rpc_pigeon.Grpc.Discovery.{
  Cluster, Svc, svc_of, Round, attach, attached, replace, renew_pool, discover_svc, update_svc,
  discover, update_engine, init_pool_from_exist_engine, init_pool_from_exist_engine_for_update,
  pool_of, atoi, host_port, port_of, pod_ip, server_name,
}
use rpc_pigeon.Grpc.Service.Pools.{
  Reach-trans, Goes, Goes-same, GoesLeaving, loaded, init_grpc_pool_by_omp-Goes,
  release_grpc_pool-Goes,
}

-- Nothing happens.
quiet :
    (s : Sys) (g g' : Gate) (left : List (Option Client)) (h : Heap)
    → ◌≡◌ {A = Run Heap Round} (ret (g, []) s.heap) (ret (g', left) h)
    → GoesLeaving s h left
quiet s g g' left h e =
    let ends : h ≡ s.heap = ground arith in
    let same : left ≡ [] = ground arith in rw (ends, same) here

-- The second part of a name is a number, or nothing happens.
if_number :
    (s : Sys) (g g' : Gate) (left : List (Option Client)) (h : Heap) (todo : ℤ → Exec Round)
    (o : Option ℤ)
    → ((n : ℤ) → todo n s.heap ≡ ret (g', left) h → GoesLeaving s h left)
    → (elim o as (λ _. Exec Round) [ none ↦ pure (g, []) | some n ↦ todo n ]) s.heap
      ≡ ret (g', left) h
    → GoesLeaving s h left
if_number s g g' left h todo none each e = quiet s g g' left h e
if_number s g g' left h todo (some n) each e = each n e

-- One service after another.
joined :
    (s : Sys) (h₁ h₂ : Heap) (left₁ left₂ : List (Option Client)) (g₂ g' : Gate)
    (left : List (Option Client)) (h : Heap)
    → GoesLeaving s h₁ left₁
    → GoesLeaving (record s { heap = h₁; doomed = left₁ ++ s.doomed }) h₂ left₂
    → ◌≡◌ {A = Run Heap Round} (ret (g₂, left₂ ++ left₁) h₂) (ret (g', left) h)
    → GoesLeaving s h left
joined s h₁ h₂ left₁ left₂ g₂ g' left h a b e =
    let ends : h ≡ h₂ = ground arith in
    let same : left ≡ left₂ ++ left₁ = ground arith in
    rw (ends, same, append_assoc left₂ left₁ s.doomed) (Reach-trans a b)

module _ (k : Cluster) (engines : List EngineConfig)
    (known : All (λ c. KnownMode c.pool_model) engines) where
  attach-Goes :
      (s : Sys) (svc : Svc) (n : ℤ) (g g' : Gate) (h : Heap)
      → attach k engines svc n g s.heap ≡ ret g' h
      → Goes s h
  unfolding attach
  attach-Goes s svc n g g' h e =
      let ip = pod_ip [] (k.endpoints (server_name svc)) in
      elim (Bool-cases (eq_text ip [])) [
        | inl missing ↦
            let e' : ◌≡◌ {A = Run Heap Gate} (ret g s.heap) (ret g' h) = rw missing at e in
            Goes-same s h (ground arith)
        | inr there ↦ elim (Bool-cases (k.live (host_port ip (port_of g svc.engine_type)))) [
          | inl live ↦
              init_grpc_pool_by_omp-Goes k.grpc_dial k.now s _ engines g g' h known
                (rw (there, live) at e)
          | inr dead ↦
              let e' : ◌≡◌ {A = Run Heap Gate} (ret g s.heap) (ret g' h) = rw (there, dead) at e in
              Goes-same s h (ground arith)
        ]
      ]

  -- What a release left stays as it is.
  attached-Goes :
      (s : Sys) (svc : Svc) (n : ℤ) (r : Round) (g' : Gate) (left : List (Option Client)) (h : Heap)
      → attached k engines svc n r s.heap ≡ ret (g', left) h
      → (left ≡ r.1) × Goes s h
  attached-Goes s svc n (g, before) g' left h e =
      let (g₁, h₁, e₁, e₂) = and_then-eq-ret (attach k engines svc n g s.heap) _ e in
      let ends : h ≡ h₁ = ground arith in (ground arith, rw ends (attach-Goes s svc n g g₁ h₁ e₁))

  -- A new pool, with nothing released before it.
  attached-only :
      (s : Sys) (svc : Svc) (n : ℤ) (g g' : Gate) (left : List (Option Client)) (h : Heap)
      → attached k engines svc n (g, []) s.heap ≡ ret (g', left) h
      → GoesLeaving s h left
  attached-only s svc n g g' left h e =
      let (same, goes) = attached-Goes s svc n (g, []) g' left h e in rw same goes

  replaced-Goes :
      (s : Sys) (svc : Svc) (n : ℤ) (g g' : Gate) (left : List (Option Client)) (h : Heap)
      → and_then
          (release_grpc_pool svc.scene_code svc.engine_type g s.heap)
          (attached k engines svc n)
        ≡ ret (g', left) h
      → GoesLeaving s h left
  replaced-Goes s svc n g g' left h e =
      let (r, h₁, e₁, e₂) =
        and_then-eq-ret (release_grpc_pool svc.scene_code svc.engine_type g s.heap) _ e in
      let before = release_grpc_pool-Goes s svc.scene_code svc.engine_type g r.0 r.1 h₁ e₁ in
      let (same, goes) =
        attached-Goes (record s { heap = h₁; doomed = r.1 ++ s.doomed }) svc n r g' left h e₂ in
      rw same (Reach-trans before goes)

  replace-Goes :
      (s : Sys) (svc : Svc) (n : ℤ) (g g' : Gate) (o : Option ℕ) (left : List (Option Client))
      (h : Heap)
      → replace k engines svc n g o s.heap ≡ ret (g', left) h
      → GoesLeaving s h left
  replace-Goes s svc n g g' none left h e = attached-only s svc n g g' left h e
  replace-Goes s svc n g g' (some p) left h e =
      let (pool, h₁, e₁, e₂) = and_then-eq-ret (load_pool p s.heap) _ e in
      let (_, back) = loaded p s.heap h₁ pool e₁ in
      elim (Bool-cases (eqb_ℤ pool.capacity (int32 n))) [
        | inl equal ↦ quiet s g g' left h (rw (equal, back) at e₂)
        | inr other ↦ replaced-Goes s svc n g g' left h (rw (other, back) at e₂)
      ]

  renew_pool-Goes :
      (s : Sys) (svc : Svc) (n : ℤ) (g g' : Gate) (o : Option ℕ) (left : List (Option Client))
      (h : Heap)
      → renew_pool k engines svc n g o s.heap ≡ ret (g', left) h
      → GoesLeaving s h left
  renew_pool-Goes s svc n g g' none left h e = attached-only s svc n g g' left h e
  renew_pool-Goes s svc n g g' (some p) left h e =
      let (pool, h₁, e₁, e₂) = and_then-eq-ret (load_pool p s.heap) _ e in
      let (_, back) = loaded p s.heap h₁ pool e₁ in
      elim (Bool-cases (eqb_ℤ pool.capacity (int32 n))) [
        | inl equal ↦ replaced-Goes s svc n g g' left h (rw (equal, back) at e₂)
        | inr other ↦ attached-only s svc n g g' left h (rw (other, back) at e₂)
      ]

  discover_svc-Goes :
      (s : Sys) (o : Option Svc) (g g' : Gate) (left : List (Option Client)) (h : Heap)
      → discover_svc k engines o g s.heap ≡ ret (g', left) h
      → GoesLeaving s h left
  discover_svc-Goes s none g g' left h e = quiet s g g' left h e
  discover_svc-Goes s (some svc) g g' left h e =
      if_number s g g' left h (λ n. replace k engines svc n g (pool_of svc g))
        (atoi svc.engine_cc_num) (λ n. replace-Goes s svc n g g' (pool_of svc g) left h) e

  update_svc-Goes :
      (s : Sys) (o : Option Svc) (g g' : Gate) (left : List (Option Client)) (h : Heap)
      → update_svc k engines o g s.heap ≡ ret (g', left) h
      → GoesLeaving s h left
  update_svc-Goes s none g g' left h e = quiet s g g' left h e
  update_svc-Goes s (some svc) g g' left h e =
      if_number s g g' left h (λ n. renew_pool k engines svc n g (pool_of svc g))
        (atoi svc.engine_cc_num) (λ n. renew_pool-Goes s svc n g g' (pool_of svc g) left h) e

  discover-Goes :
      (s : Sys) (engine name : Text) (g g' : Gate) (left : List (Option Client)) (h : Heap)
      → discover k engines engine name g s.heap ≡ ret (g', left) h
      → GoesLeaving s h left
  unfolding discover
  discover-Goes s engine name g g' left h e =
      elim (Bool-cases (k.live (host_port name (port_of g engine)))) [
        | inl live ↦ discover_svc-Goes s (svc_of (split name b'-')) g g' left h (rw live at e)
        | inr dead ↦ quiet s g g' left h (rw dead at e)
      ]

  update_engine-Goes :
      (s : Sys) (engine name : Text) (g g' : Gate) (left : List (Option Client)) (h : Heap)
      → update_engine k engines engine name g s.heap ≡ ret (g', left) h
      → GoesLeaving s h left
  unfolding update_engine
  update_engine-Goes s engine name g g' left h e =
      elim (Bool-cases (k.live (host_port name (port_of g engine)))) [
        | inl live ↦ update_svc-Goes s (svc_of (split name b'-')) g g' left h (rw live at e)
        | inr dead ↦ quiet s g g' left h (rw dead at e)
      ]

  -- The clients that the services of a round leave behind add up.
  pub discovery-Goes :
      (s : Sys) (engine : Text) (names : List Text) (g g' : Gate) (left : List (Option Client))
      (h : Heap)
      → init_pool_from_exist_engine k engines engine names g s.heap ≡ ret (g', left) h
      → GoesLeaving s h left
  unfolding init_pool_from_exist_engine
  discovery-Goes s engine [] g g' left h e = quiet s g g' left h e
  discovery-Goes s engine (name ∷ names) g g' left h e =
      let ((g₁, left₁), h₁, e₁, e₂) =
        and_then-eq-ret (discover k engines engine name g s.heap) _ e in
      let s₁ = record s { heap = h₁; doomed = left₁ ++ s.doomed } in
      let ((g₂, left₂), h₂, e₃, e₄) =
        and_then-eq-ret (init_pool_from_exist_engine k engines engine names g₁ h₁) _ e₂ in
      joined s h₁ h₂ left₁ left₂ g₂ g' left h (discover-Goes s engine name g g₁ left₁ h₁ e₁)
        (discovery-Goes s₁ engine names g₁ g₂ left₂ h₂ e₃) e₄

  pub update-Goes :
      (s : Sys) (engine : Text) (names : List Text) (g g' : Gate) (left : List (Option Client))
      (h : Heap)
      → init_pool_from_exist_engine_for_update k engines engine names g s.heap ≡ ret (g', left) h
      → GoesLeaving s h left
  unfolding init_pool_from_exist_engine_for_update
  update-Goes s engine [] g g' left h e = quiet s g g' left h e
  update-Goes s engine (name ∷ names) g g' left h e =
      let ((g₁, left₁), h₁, e₁, e₂) =
        and_then-eq-ret (update_engine k engines engine name g s.heap) _ e in
      let s₁ = record s { heap = h₁; doomed = left₁ ++ s.doomed } in
      let ((g₂, left₂), h₂, e₃, e₄) =
        and_then-eq-ret (init_pool_from_exist_engine_for_update k engines engine names g₁ h₁) _
          e₂ in
      joined s h₁ h₂ left₁ left₂ g₂ g' left h (update_engine-Goes s engine name g g₁ left₁ h₁ e₁)
        (update-Goes s₁ engine names g₁ g₂ left₂ h₂ e₃) e₄
