-- ===== src/Grpc/System/Admit.antt =====
-- A tenant is made with an empty channel and filled: `initTenantPool` for one tenant.
use rpc_pigeon.Common.{
  ℕ, suc, ◌+◌, ◌<◌, ◌^◌, pos, int32, int32-pos, ◌≡◌, refl, sym, subst, ◌∙◌, List, [], ◌∷◌, true,
  false, Option, none, some, inl, inr, Bool-cases, arith, All, All-mono, pos_part, ap,
}
use rpc_pigeon.Common.Text.{codes, eq_text, to_lower}
use rpc_pigeon.Common.Dict.{Dict, put}
use rpc_pigeon.Common.Run.{Run, ret, ret-eq-ret, and_then-eq-ret, and_then}
use rpc_pigeon.Grpc.Heap.{Client, Tenant, Heap, update}
use rpc_pigeon.Grpc.Tenant.Init.{
  TenantConfig, Tenants, fill_tenant, fresh_tenant, new_tenant, init_tenant,
}
use rpc_pigeon.Grpc.System.{Sys}
use rpc_pigeon.Grpc.System.Accounts.{at_tenant, one_if, held, held-cons, held-nil}
use rpc_pigeon.Grpc.System.Invariant.{Live, NilOrBelow, TenantFits, Inv, at-update}
use rpc_pigeon.Grpc.System.Adopt.{fill_tenant-Inv}

fresh_one :
    (pools tenants : ℕ) (c : Client) → Live pools tenants c → one_if (at_tenant tenants c) + 0 ≡ 0
fresh_one pools tenants c live = ground arith

held-fresh :
    (pools tenants : ℕ) (lent : List Client)
    → All (Live pools tenants) lent
    → held (at_tenant tenants) lent ≡ 0
held-fresh pools tenants [] live = held-nil _
held-fresh pools tenants (c ∷ cs) live =
    rw (held-cons, held-fresh pools tenants cs live.1) (fresh_one pools tenants c live.0)

NilOrBelow-suc : (n : ℕ) (o : Option ℕ) → NilOrBelow n o → NilOrBelow (suc n) o
NilOrBelow-suc n none h = h
NilOrBelow-suc n (some p) h = omega arith

abbrev admitted : Heap → Tenant → Heap
admitted h tenant = record h {
  tenants = update h.tenants h.next_tenant tenant;
  next_tenant = suc h.next_tenant;
}

alloc_tenant-Inv :
    (s : Sys) (config : TenantConfig) (cap : ℕ)
    → config.engine_pool_size ≡ pos cap
    → cap < 2 ^ 31
    → Inv s
    → Inv (record s { heap = admitted s.heap (fresh_tenant config cap) })
alloc_tenant-Inv s config cap e small v = record {
  pools = v.pools;
  tenants =
      at-update (λ u a. TenantFits s.heap.next_pool u s.lent a) s.heap.tenants s.heap.next_tenant
        (fresh_tenant config cap)
        (
          refl,
          (
            ap int32 e ∙ int32-pos cap small,
            small,
            omega (arith, held-fresh s.heap.next_pool s.heap.next_tenant s.lent v.lent),
            tt,
          ),
        )
        λ u a ne here. v.tenants u a here;
  pool_below = v.pool_below;
  pool_made = v.pool_made;
  tenant_below =
      at-update (λ u a. u < suc s.heap.next_tenant) s.heap.tenants s.heap.next_tenant
        (fresh_tenant config cap) (omega arith)
        λ u a ne here. omega (arith, v.tenant_below u a here);
  tenant_made = λ u lt. ground (arith, v.tenant_made u);
  lent =
      All-mono _ _ s.lent
        (λ c live. (live.0, live.1, NilOrBelow-suc s.heap.next_tenant c.tenant live.2)) v.lent;
}

new_tenant_pos :
    (config : TenantConfig) (cap : ℕ) (h : Heap)
    → config.engine_pool_size ≡ pos cap
    → new_tenant config h ≡ ret h.next_tenant (admitted h (fresh_tenant config cap))
unfolding new_tenant
new_tenant_pos config cap h e = ground arith

-- The part of the body behind the allocation, for one engine.
fill_then-Inv :
    (s : Sys) (config : TenantConfig) (cap : ℕ) (pools : ℕ → Dict ℕ) (result r : Tenants) (h : Heap)
    → config.engine_pool_size ≡ pos cap
    → cap < 2 ^ 31
    → Inv s
    → and_then
        (fill_tenant pools s.heap.next_tenant cap (admitted s.heap (fresh_tenant config cap)))
        (λ _. ret result)
      ≡ ret r h
    → Inv (record s { heap = h })
fill_then-Inv s config cap pools result r h e small v run =
    let (_, h₁, r₁, r₂) =
      and_then-eq-ret
        (fill_tenant pools s.heap.next_tenant cap (admitted s.heap (fresh_tenant config cap))) _
        run in
    let same : h ≡ h₁ = ground arith in
    subst (λ k. Inv (record s { heap = k })) (sym same)
      (fill_tenant-Inv cap pools (record s { heap = admitted s.heap (fresh_tenant config cap) })
        s.heap.next_tenant (fresh_tenant config cap) (record { cap = cap; buf = [] }) h₁
        (ground arith) refl
        (omega (arith, held-fresh s.heap.next_pool s.heap.next_tenant s.lent v.lent)) r₁
        (alloc_tenant-Inv s config cap e small v))

module _ (asr tts : ℕ → Dict ℕ) (config : TenantConfig) (cap : ℕ) (tenants : Tenants) (h : Heap)
    (e : config.engine_pool_size ≡ pos cap) where
  filled_by : (ℕ → Dict ℕ) → Tenants → Run Heap Tenants
  filled_by pools result =
      and_then (fill_tenant pools h.next_tenant cap (admitted h (fresh_tenant config cap)))
        (λ _. ret result)

  init_tenant_asr :
      eq_text (to_lower config.engine_name) (codes "asr") ≡ true
      → init_tenant asr tts config tenants h
        ≡ filled_by asr (record tenants { asr = put tenants.asr config.scene_code h.next_tenant })
  unfolding init_tenant filled_by
  init_tenant_asr is_asr = rw (new_tenant_pos config cap h e, is_asr, ap pos_part e)

  init_tenant_tts :
      eq_text (to_lower config.engine_name) (codes "asr") ≡ false
      → eq_text (to_lower config.engine_name) (codes "tts") ≡ true
      → init_tenant asr tts config tenants h
        ≡ filled_by tts (record tenants { tts = put tenants.tts config.scene_code h.next_tenant })
  unfolding init_tenant filled_by
  init_tenant_tts other is_tts = rw (new_tenant_pos config cap h e, other, is_tts, ap pos_part e)

  init_tenant_none :
      eq_text (to_lower config.engine_name) (codes "asr") ≡ false
      → eq_text (to_lower config.engine_name) (codes "tts") ≡ false
      → init_tenant asr tts config tenants h ≡ ret tenants (admitted h (fresh_tenant config cap))
  unfolding init_tenant
  init_tenant_none other neither = rw (new_tenant_pos config cap h e, other, neither)

-- A tenant whose pool size is an `int32` that is not negative.
pub admit-Inv :
    (s : Sys) (asr tts : ℕ → Dict ℕ) (config : TenantConfig) (cap : ℕ) (tenants r : Tenants)
    (h : Heap)
    → config.engine_pool_size ≡ pos cap
    → cap < 2 ^ 31
    → init_tenant asr tts config tenants s.heap ≡ ret r h
    → Inv s
    → Inv (record s { heap = h })
unfolding filled_by
admit-Inv s asr tts config cap tenants r h e small run v =
    elim (Bool-cases (eq_text (to_lower config.engine_name) (codes "asr"))) [
      | inl is_asr ↦
          fill_then-Inv s config cap asr _ r h e small v
            (sym (init_tenant_asr asr tts config cap tenants s.heap e is_asr) ∙ run)
      | inr other ↦ elim (Bool-cases (eq_text (to_lower config.engine_name) (codes "tts"))) [
        | inl is_tts ↦
            fill_then-Inv s config cap tts _ r h e small v
              (sym (init_tenant_tts asr tts config cap tenants s.heap e other is_tts) ∙ run)
        | inr neither ↦
            subst (λ k. Inv (record s { heap = k }))
              (sym
                (ret-eq-ret (init_tenant_none asr tts config cap tenants s.heap e other neither)
                  run).1)
              (alloc_tenant-Inv s config cap e small v)
      ]
    ]
