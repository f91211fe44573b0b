-- ===== src/Grpc/Gateway/Cluster.antt =====
-- How an engine's connections are divided among the nodes of the gateway.
use rpc_pigeon.Common.{
  ℕ, suc, ◌+◌, ◌*◌, ◌/◌, ◌%◌, ◌^◌, ◌≤◌, ◌<◌, ◌≡◌, refl, ◌∙◌, ap, pos, ◌+ℤ◌, int64, int64-pos, true,
  Bool-cases, inl, inr, ◌⊎◌, arith, ◌==◌,
}
use native.Mathlib.Nat.{div-add-mod, mod-lt, div-le_self}
use rpc_pigeon.Common.Run.{ret}
use rpc_pigeon.Grpc.Heap.{Heap}
use rpc_pigeon.Grpc.Gateway.{Gate, quotient, cluster_size}

-- A node's part: rounded down for an even number, and one more than that for an odd one.
abbrev pub part : (n nodes : ℕ) → ℕ
part n nodes = n / nodes + n % 2

round_up : (q : ℕ) → q < 2 ^ 31 → int64 (pos q +ℤ pos 1) ≡ pos (q + 1)
round_up q small =
    let e : pos q +ℤ pos 1 ≡ pos (q + 1) = ground arith in
    ap int64 e ∙ int64-pos (q + 1) (omega arith)

quotient_le : (n k : ℕ) → n / suc k ≤ n
quotient_le n k = grind (arith, div-le_self n (suc k))

-- A number that shares `n` among the nodes: as much as fits for an even one, and for an odd one the
-- first that is too much.
abbrev pub Shares : (n nodes size : ℕ) → Type 0
Shares n nodes size =
    (n % 2 ≡ 0) × (nodes * size ≤ n) × (n < nodes * size + nodes)
    ⊎ (n % 2 ≡ 1) × (n < nodes * size) × (nodes * size ≤ n + nodes)

part-Shares : (n k : ℕ) → Shares n (suc k) (part n (suc k))
part-Shares n k =
    let d = div-add-mod n (suc k) in
    let m = mod-lt n {m = suc k} (omega arith) in
    elim (Bool-cases (n % 2 == 0)) [
      | inl even ↦
          let e : n % 2 ≡ 0 = ground arith in
          inl (e, grind (arith, d, m, e), grind (arith, d, m, e))
      | inr odd ↦
          let e : n % 2 ≡ 1 = ground arith in
          inr (e, grind (arith, d, m, e), grind (arith, d, m, e))
    ]

module _ (g : Gate) (n k : ℕ) (h : Heap) where
  cluster_size-part :
      g.engine_cluster_enabled ≡ true
      → g.engine_cluster_node_num ≡ pos (suc k)
      → n < 2 ^ 31
      → cluster_size g (pos n) h ≡ ret (pos (part n (suc k))) h
  unfolding cluster_size quotient
  cluster_size-part on nodes small = elim (Bool-cases (n % 2 == 0)) [
    | inl even ↦ let e : part n (suc k) ≡ n / suc k = ground arith in rw (on, nodes, even, e) refl
    | inr odd ↦
        let e : part n (suc k) ≡ n / suc k + 1 = ground arith in
        rw (on, nodes, odd, e, round_up (n / suc k) (omega (arith, quotient_le n k))) refl
  ]

  -- In a cluster of `suc k` nodes, each node makes a part of an engine's connections. For an even
  -- number it is the largest with which all nodes together make at most that number; for an odd one
  -- it is the smallest with which they make more.
  pub cluster_size_total :
      g.engine_cluster_enabled ≡ true
      → g.engine_cluster_node_num ≡ pos (suc k)
      → n < 2 ^ 31
      → (size : ℕ) × (cluster_size g (pos n) h ≡ ret (pos size) h) × Shares n (suc k) size
  cluster_size_total on nodes small =
      (part n (suc k), cluster_size-part on nodes small, part-Shares n k)
