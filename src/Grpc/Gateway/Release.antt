-- ===== src/Grpc/Gateway/Release.antt =====
-- `ReleaseGrpcPool`, and what it leaves.
use rpc_pigeon.Common.{
  ℕ, ◌≡◌, refl, ◌∙◌, ap, List, [], true, false, Option, none, some, arith, if◌then◌else◌, ◌==◌,
}
use rpc_pigeon.Common.Text.{Text, eq_text, to_lower}
use rpc_pigeon.Common.Dict.{Dict, get, remove, get-remove}
use rpc_pigeon.Common.Run.{ret}
use rpc_pigeon.Grpc.Heap.{Exec, pure, Client, Chan, Pool, Heap, update}
use rpc_pigeon.Grpc.Pool.{is_close, close}
use rpc_pigeon.Grpc.Gateway.{
  Engine, asr, tts, engine_of, Gate, pools_of, with_pools, released, release_grpc_pool,
}

pub pools_of-with_pools :
    (e : Engine) (pools : Dict ℕ) (g : Gate) → pools_of e (with_pools e pools g) ≡ pools
pools_of-with_pools asr pools g = refl
pools_of-with_pools tts pools g = refl

abbrev pub shut : Heap → ℕ → Pool → Heap
shut h p pool = record h {
  pools = update h.pools p (record pool { clients = none; status = false });
}

close_at :
    (h : Heap) (p : ℕ) (pool : Pool) (ch : Chan)
    → h.pools p ≡ some pool
    → pool.clients ≡ some ch
    → close p h ≡ ret ch.buf (shut h p pool)
unfolding close
close_at h p pool ch there e = ground arith

is_close_at :
    (h : Heap) (p : ℕ) (pool : Pool) → is_close (some p) (shut h p pool) ≡ ret true (shut h p pool)
unfolding is_close
is_close_at h p pool = ground arith

module _ (e : Engine) (name engine_type : Text) (g : Gate) (h : Heap) where
  at_engine :
      (o : Option Engine)
      → o ≡ some e
      → (p : ℕ) (pool : Pool) (ch : Chan) → get (pools_of e g) name ≡ some p
      → h.pools p ≡ some pool
      → pool.clients ≡ some ch
      → (elim o as (λ _. Exec (Gate × List (Option Client))) [
        | none ↦ pure (g, [])
        | some e' ↦ released e' name g (get (pools_of e' g) name)
      ])
          h
        ≡ ret (with_pools e (remove (pools_of e g) name) g, ch.buf) (shut h p pool)
  at_engine o o_e p pool ch found there e_clients =
      rw (o_e, found, close_at h p pool ch there e_clients) refl

  pub release_at :
      (p : ℕ) (pool : Pool) (ch : Chan)
      → engine_of (to_lower engine_type) ≡ some e
      → get (pools_of e g) name ≡ some p
      → h.pools p ≡ some pool
      → pool.clients ≡ some ch
      → release_grpc_pool name engine_type g h
        ≡ ret (with_pools e (remove (pools_of e g) name) g, ch.buf) (shut h p pool)
  unfolding release_grpc_pool
  release_at p pool ch engine found there e_clients =
      at_engine (engine_of (to_lower engine_type)) engine p pool ch found there e_clients

  -- A release of an open pool closes it, hands its idle clients to the goroutine of `Close` and takes
  -- its name, and no other, out of the engine's map. The pool then counts as closed and down.
  pub release_closes :
      (p : ℕ) (pool : Pool) (ch : Chan)
      → engine_of (to_lower engine_type) ≡ some e
      → get (pools_of e g) name ≡ some p
      → h.pools p ≡ some pool
      → pool.clients ≡ some ch
      → (g' : Gate) × (h' : Heap) × (release_grpc_pool name engine_type g h ≡ ret (g', ch.buf) h')
        × (is_close (some p) h' ≡ ret true h')
        × ((k : Text)
            → get (pools_of e g') k ≡ (if eq_text name k then none else get (pools_of e g) k))
        × ((q : ℕ)
            → h'.pools q ≡ (
                if q == p
                then some (record pool { clients = none; status = false })
                else h.pools q))
  release_closes p pool ch engine found there e_clients = (
    with_pools e (remove (pools_of e g) name) g,
    shut h p pool,
    release_at p pool ch engine found there e_clients,
    is_close_at h p pool,
    λ k.
        ap (λ m. get m k) (pools_of-with_pools e (remove (pools_of e g) name) g)
        ∙ get-remove (pools_of e g) name k,
    λ q. refl,
  )
