-- ===== src/Grpc/System/Accounts.antt =====
-- How many of the lent clients belong to a pool or a tenant.
use rpc_pigeon.Common.{
  ℕ, suc, ◌+◌, ◌≡◌, ◌≢◌, ◌≤◌, refl, List, [], ◌∷◌, ◌++◌, Bool, Option, true, false, none, some,
  arith, ◌==◌,
}
use rpc_pigeon.Grpc.Heap.{Client}
use rpc_pigeon.Grpc.Pool.Acquire.{NilOrInPool}
use rpc_pigeon.Grpc.System.{lend}

-- The channel to which `Client.Close` sends the client is that of pool `p`.
abbrev pub at_pool : ℕ → Client → Bool
at_pool p c = elim c.tenant [
  | some t ↦ false
  | none ↦ elim c.pool [ none ↦ false | some q ↦ q == p ]
]

-- It is that of tenant `t`.
abbrev pub at_tenant : ℕ → Client → Bool
at_tenant t c = elim c.tenant [ none ↦ false | some u ↦ u == t ]

abbrev pub one_if : Bool → ℕ
one_if true = 1
one_if false = 0

pub held : (Client → Bool) → List Client → ℕ
held f [] = 0
held f (c ∷ cs) = one_if (f c) + held f cs

pub held-nil : (f : Client → Bool) → held f [] ≡ 0
unfolding held
held-nil f = refl

pub held-cons :
    (f : Client → Bool) (c : Client) (cs : List Client) → held f (c ∷ cs) ≡ one_if (f c) + held f cs
unfolding held
held-cons f c cs = refl

pub held-middle :
    (f : Client → Bool) (xs : List Client) (c : Client) (ys : List Client)
    → held f (xs ++ (c ∷ ys)) ≡ one_if (f c) + held f (xs ++ ys)
unfolding held
held-middle f [] c ys = refl
held-middle f (x ∷ xs) c ys = omega (arith, held-middle f xs c ys)

pub held-lend_self :
    (p : ℕ) (c : Option Client) (lent : List Client)
    → held (at_pool p) (lend c lent) ≤ 1 + held (at_pool p) lent
unfolding held
held-lend_self p none lent = omega arith
held-lend_self p (some c) lent = ground arith

pub held-lend_ne :
    (p q : ℕ) (c : Option Client) (lent : List Client)
    → NilOrInPool p c
    → q ≢ p
    → held (at_pool q) (lend c lent) ≡ held (at_pool q) lent
unfolding held
held-lend_ne p q none lent i ne = refl
held-lend_ne p q (some c) lent i ne = ground arith

pub held-lend_tenant :
    (p t : ℕ) (c : Option Client) (lent : List Client)
    → NilOrInPool p c
    → held (at_tenant t) (lend c lent) ≡ held (at_tenant t) lent
unfolding held
held-lend_tenant p t none lent i = refl
held-lend_tenant p t (some c) lent i = ground arith

pub held-pool_self : (p : ℕ) (c : Client) → c.pool ≡ some p → c.tenant ≡ none → at_pool p c ≡ true
held-pool_self p c e n = ground arith

pub held-tenant_self : (t : ℕ) (c : Client) → c.tenant ≡ some t → at_tenant t c ≡ true
held-tenant_self t c e = ground arith

-- Whoever counts a lent client has one more lent with it than without.
pub held-without :
    (f : Client → Bool) (lent xs : List Client) (c : Client) (ys : List Client)
    → lent ≡ xs ++ (c ∷ ys)
    → held f lent ≡ one_if (f c) + held f (xs ++ ys)
held-without f lent xs c ys e = rw e (held-middle f xs c ys)

-- A client of a tenant is lent.
module _ (t : ℕ) (c : Client) (lent : List Client) (of_t : c.tenant ≡ some t) where
  pub held-tenant_cons : held (at_tenant t) (c ∷ lent) ≡ suc (held (at_tenant t) lent)
  unfolding held
  held-tenant_cons = ground arith

  pub held-tenant_cons_ne :
      (u : ℕ) → u ≢ t → held (at_tenant u) (c ∷ lent) ≡ held (at_tenant u) lent
  unfolding held
  held-tenant_cons_ne u ne = ground arith

  pub held-tenant_cons_pool : (p : ℕ) → held (at_pool p) (c ∷ lent) ≡ held (at_pool p) lent
  unfolding held
  held-tenant_cons_pool p = ground arith
