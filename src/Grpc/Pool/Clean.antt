-- ===== src/Grpc/Pool/Clean.antt =====
-- `Acquire` (pool.go) and `Acquire` (tenant.go) return a client or an error, never both.
use rpc_pigeon.Common.{
  ℕ, ◌≡◌, refl, sym, subst, ◌⊎◌, inl, inr, Option, none, some, Bool-cases, is_some, true, false,
  arith, eqb_ℤ,
}
use rpc_pigeon.Common.Run.{Run, ret, and_then, and_then-eq-ret}
use rpc_pigeon.Grpc.Heap.{
  Error, pool_init, pool_closed, pure, Time, Client, Heap, Exec, load_pool, Pool,
}
use rpc_pigeon.Grpc.Pool.{
  strict_mode, loose_mode, renew, create_client, reusable, over_capacity, dial, new_client, destory,
  receive_pool, Ready, done, received, take_client, acquire_done, acquire_received, acquire_loose,
  acquire, acquire_case,
}
use rpc_pigeon.Grpc.Tenant

-- `createClient` returns a client or an error.
abbrev pub Clean : Option Client × Option Error → Type 0
Clean (c, err) = (c ≡ none) ⊎ (err ≡ none)

ret-Clean :
    (x r : Option Client × Option Error) (h h' : Heap)
    → ◌≡◌ {A = Run Heap (Option Client × Option Error)} (ret x h) (ret r h')
    → Clean x
    → Clean r
ret-Clean x r h h' e clean = let same : r ≡ x = ground arith in subst Clean (sym same) clean

module _ (p : ℕ) (later : Time) where
  created-Clean :
      (conn : Option ℕ) (r : Option Client × Option Error) (h h' : Heap)
      → ◌≡◌ {A = Run Heap (Option Client × Option Error)}
          (elim conn [
            | none ↦ ret (none, some pool_init) h
            | some c ↦ ret (some (new_client p later c), none) h
          ])
          (ret r h')
      → Clean r
  created-Clean none r h h' e = ret-Clean _ r h h' e (inl refl)
  created-Clean (some c) r h h' e = ret-Clean _ r h h' e (inr refl)

  split_at :
      (conn : Option ℕ) (h : Heap) (r : Option Client × Option Error) (h' : Heap)
      → (elim conn as (λ _. Exec (Option Client × Option Error)) [
        | none ↦ pure (none, some pool_init)
        | some c ↦ pure (some (new_client p later c), none)
      ])
          h
        ≡ ret r h'
      → ◌≡◌ {A = Run Heap (Option Client × Option Error)}
          (elim conn [
            | none ↦ ret (none, some pool_init) h
            | some c ↦ ret (some (new_client p later c), none) h
          ])
          (ret r h')
  split_at none h r h' e = e
  split_at (some c) h r h' e = e

  create_client-Clean :
      (r : Option Client × Option Error) (h h' : Heap)
      → create_client p later h ≡ ret r h'
      → Clean r
  unfolding create_client
  create_client-Clean r h h' e =
      let (pool, h₁, e₁, e₂) = and_then-eq-ret (load_pool p h) _ e in
      let (conn, h₂, e₃, e₄) =
        and_then-eq-ret (dial pool.factor h₁)
          (λ (conn : Option ℕ). elim conn [
            | none ↦ pure (none, some pool_init)
            | some c ↦ pure (some (new_client p later c), none)
          ])
          e₂ in
      created-Clean conn r h₂ h' (split_at conn h₂ r h' e₄)

  renew-Clean :
      (o : Option Client) (r : Option Client × Option Error) (h h' : Heap)
      → renew p o later h ≡ ret r h'
      → Clean r
  unfolding renew
  renew-Clean none r h h' e = create_client-Clean r h h' e
  renew-Clean (some c) r h h' e =
      let (x, h₁, e₁, e₂) = and_then-eq-ret (destory c h) _ e in create_client-Clean r h₁ h' e₂

  take_client-Clean :
      (pool : Pool) (o : Option Client) (now : Time) (r : Option Client × Option Error)
      (h h' : Heap)
      → take_client p pool o now later h ≡ ret r h'
      → Clean r
  take_client-Clean pool none now r h h' e = renew-Clean none r h h' e
  take_client-Clean pool (some c) now r h h' e = elim (Bool-cases (reusable pool c now)) [
    | inl keep ↦
        let e' : ◌≡◌ {A = Run Heap (Option Client × Option Error)}
            (ret (some (record c { time_used = now }), none) h) (ret r h') =
          rw keep at e in
        ret-Clean _ r h h' e' (inr refl)
    | inr old ↦ renew-Clean (some c) r h h' (rw old at e)
  ]

  loose-Clean :
      (pool : Pool) (r : Option Client × Option Error) (h h' : Heap)
      → over_capacity pool ≡ false
      → acquire_loose p pool later h ≡ ret r h'
      → Clean r
  unfolding acquire_loose
  loose-Clean pool r h h' fits e =
      let e' : and_then (receive_pool p h) (λ c. ret (c, none)) ≡ ret r h' = rw fits at e in
      let (c, h₁, e₁, e₂) = and_then-eq-ret (receive_pool p h) _ e' in
      ret-Clean (c, none) r h₁ h' e₂ (inr refl)

  case-Clean :
      (ready : Ready) (pool : Pool) (now : Time) (r : Option Client × Option Error) (h h' : Heap)
      → over_capacity pool ≡ false
      → acquire_case ready p pool now later h ≡ ret r h'
      → Clean r
  unfolding acquire_done acquire_received
  case-Clean received pool now r h h' fits e =
      let (c, h₁, e₁, e₂) = and_then-eq-ret (receive_pool p h) _ e in
      take_client-Clean pool c now r h₁ h' e₂
  case-Clean done pool now r h h' fits e = elim (Bool-cases (eqb_ℤ pool.mode strict_mode)) [
    | inl strict ↦
        let e' : ◌≡◌ {A = Run Heap (Option Client × Option Error)} (ret (none, none) h) (ret r h') =
          rw strict at e in
        ret-Clean _ r h h' e' (inl refl)
    | inr other ↦ elim (Bool-cases (eqb_ℤ pool.mode loose_mode)) [
      | inl loose ↦ loose-Clean pool r h h' fits (rw (other, loose) at e)
      | inr unknown ↦ renew-Clean none r h h' (rw (other, unknown) at e)
    ]
  ]

  loaded :
      (h h₁ : Heap) (pool : Pool) → load_pool p h ≡ ret pool h₁ → (h.pools p ≡ some pool) × (h₁ ≡ h)
  unfolding load_pool
  loaded h h₁ pool e = (ground arith, ground arith)

  -- An open pool that is not over its capacity returns no client with an error.
  pub acquire-Clean :
      (ready : Ready) (now : Time) (r : Option Client × Option Error) (h h' : Heap)
      → ((pool : Pool)
          → h.pools p ≡ some pool
          → is_some pool.clients ≡ true
          → over_capacity pool ≡ false)
      → acquire (some p) ready now later h ≡ ret r h'
      → Clean r
  unfolding acquire
  acquire-Clean ready now r h h' fits e =
      let (pool, h₁, e₁, e₂) = and_then-eq-ret (load_pool p h) _ e in
      let (there, same) = loaded h h₁ pool e₁ in
      elim (Bool-cases (is_some pool.clients)) [
        | inl usable ↦ case-Clean ready pool now r h₁ h' (fits pool there usable) (rw usable at e₂)
        | inr shut ↦
            let e' : ◌≡◌ {A = Run Heap (Option Client × Option Error)}
                (ret (none, some pool_closed) h₁) (ret r h') =
              rw shut at e₂ in
            ret-Clean _ r h₁ h' e' (inl refl)
      ]

-- A tenant returns no client with an error.
pub tenant-Clean :
    (t : ℕ) (r : Option Client × Option Error) (h h' : Heap)
    → Tenant.acquire (some t) h ≡ ret r h'
    → Clean r
unfolding Tenant.acquire
tenant-Clean t r h h' e =
    let (shut, h₁, e₁, e₂) = and_then-eq-ret (Tenant.is_close (some t) h) _ e in
    elim (Bool-cases shut) [
      | inl closed ↦
          let e' : ◌≡◌ {A = Run Heap (Option Client × Option Error)}
              (ret (none, some pool_closed) h₁) (ret r h') =
            rw closed at e₂ in
          ret-Clean _ r h₁ h' e' (inl refl)
      | inr usable ↦
          let e' : and_then (Tenant.receive_tenant t h₁) (λ c. ret (c, none)) ≡ ret r h' =
            rw usable at e₂ in
          let (c, h₂, e₃, e₄) = and_then-eq-ret (Tenant.receive_tenant t h₁) _ e' in
          ret-Clean (c, none) r h₂ h' e₄ (inr refl)
    ]
