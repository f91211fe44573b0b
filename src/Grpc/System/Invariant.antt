-- ===== src/Grpc/System/Invariant.antt =====
-- The accounts of the pools and tenants: what is in a channel and what is lent from it fit into it.
use rpc_pigeon.Common.{
  ℕ, ◌<◌, ◌≡◌, ◌≢◌, List, true, Option, none, some, inl, inr, Bool-cases, arith, ◌==◌, All, is_some,
}
use rpc_pigeon.Grpc.Heap.{Client, Pool, Tenant, update}
use rpc_pigeon.Grpc.Pool.Acquire.{KnownMode, InPool}
use rpc_pigeon.Grpc.Pool.Outcomes.{Room}
use rpc_pigeon.Grpc.System.{Sys, initial}
use rpc_pigeon.Grpc.System.Accounts.{at_pool, at_tenant, held}

-- A pointer that is set points to one of the objects made so far.
abbrev pub Below : ℕ → Option ℕ → Type 0
Below n none = ⊥
Below n (some p) = p < n

abbrev pub NilOrBelow : ℕ → Option ℕ → Type 0
NilOrBelow n none = Unit
NilOrBelow n (some p) = p < n

-- A client that is in use: it has a connection, and pointers to a pool and perhaps a tenant.
abbrev pub Live : (pools tenants : ℕ) → Client → Type 0
Live pools tenants c = (is_some c.conn ≡ true) × Below pools c.pool × NilOrBelow tenants c.tenant

-- What a tenant's channel holds.
abbrev pub InTenant : (pools t : ℕ) → Option Client → Type 0
InTenant pools t none = ⊥
InTenant pools t (some c) = (is_some c.conn ≡ true) × Below pools c.pool × (c.tenant ≡ some t)

abbrev pub PoolFits : ℕ → List Client → Pool → Type 0
PoolFits p lent pool =
    KnownMode pool.mode × Room (InPool p) (held (at_pool p) lent) pool.capacity pool.clients

-- The channel of a tenant is made once and never set to nil.
abbrev pub TenantFits : (pools t : ℕ) → List Client → Tenant → Type 0
TenantFits pools t lent tenant =
    (is_some tenant.clients ≡ true)
    × Room (InTenant pools t) (held (at_tenant t) lent) tenant.capacity tenant.clients

pub record Inv (s : Sys) : Type 0 where
  pub pools : (p : ℕ) (pool : Pool) → s.heap.pools p ≡ some pool → PoolFits p s.lent pool
  pub tenants :
      (t : ℕ) (tenant : Tenant)
      → s.heap.tenants t ≡ some tenant
      → TenantFits s.heap.next_pool t s.lent tenant
  pub pool_below : (p : ℕ) (pool : Pool) → s.heap.pools p ≡ some pool → p < s.heap.next_pool
  pub pool_made : (p : ℕ) → p < s.heap.next_pool → is_some (s.heap.pools p) ≡ true
  pub tenant_below :
      (t : ℕ) (tenant : Tenant) → s.heap.tenants t ≡ some tenant → t < s.heap.next_tenant
  pub tenant_made : (t : ℕ) → t < s.heap.next_tenant → is_some (s.heap.tenants t) ≡ true
  pub lent : All (Live s.heap.next_pool s.heap.next_tenant) s.lent

pub initial-Inv : Inv initial
initial-Inv = record {
  pools = λ p pool e. absurd (cc);
  tenants = λ t tenant e. absurd (cc);
  pool_below = λ p pool e. absurd (cc);
  pool_made = λ p h. absurd (omega arith);
  tenant_below = λ t tenant e. absurd (cc);
  tenant_made = λ t h. absurd (omega arith);
  lent = tt;
}

-- The object at one pointer of an updated store.
pub at-update {ℓ κ} :
    {A : Type ℓ} (P : ℕ → A → Type κ) (f : ℕ → Option A) (p : ℕ) (a : A)
    → P p a
    → ((q : ℕ) (b : A) → q ≢ p → f q ≡ some b → P q b)
    → (q : ℕ) (b : A) → update f p a q ≡ some b
    → P q b
at-update P f p a new old q b e = elim (Bool-cases (q == p)) [
  | inl same ↦
      let at_p : q ≡ p = ground arith in let is_a : b ≡ a = ground arith in rw (at_p, is_a) new
  | inr other ↦ old q b (λ x. ground arith) (ground arith)
]
