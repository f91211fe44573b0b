-- ===== src/Grpc/Pool/Fill.antt =====
-- The rounds of the loop in `initPool` (pool.go), and what the loop leaves behind.
use rpc_pigeon.Common.{
  ℕ, zero, suc, ◌+◌, ◌≤◌, ◌<◌, ◌≡◌, refl, ap, ◌∙◌, List, [], ◌∷◌, ◌++◌, Bool, true, false, Option,
  none, some, arith, inl, inr, Bool-cases, length, length-append, subst,
}
use rpc_pigeon.Common.Run.{ret}
use rpc_pigeon.Grpc.Heap.{Error, pool_init, Time, Chan, Pool, Heap, update, Conn}
use rpc_pigeon.Grpc.Pool.{fill, new_client}
use rpc_pigeon.Grpc.Pool.Return.{filled}

pub fill-none : (h : Heap) (p : ℕ) (now : Time) → fill p zero now h ≡ ret none h
unfolding fill
fill-none h p now = refl

-- The heap after one successful round.
abbrev pub after_round : Heap → ℕ → Pool → Chan → Time → Heap
after_round h p pool ch now = record h {
  pools = update h.pools p (record pool { clients = filled ch (new_client p now h.dials) });
  dials = suc h.dials;
}

module _ (h : Heap) (p : ℕ) (pool : Pool) (here : h.pools p ≡ some pool) (rounds : ℕ)
    (now : Time) where
  pub fill_down :
      pool.factor h.dials ≡ false
      → fill p (suc rounds) now h ≡ ret (some pool_init) (record h { dials = suc h.dials })
  unfolding fill
  fill_down down = ground arith

  pub fill_up :
      (ch : Chan)
      → pool.clients ≡ some ch
      → pool.factor h.dials ≡ true
      → length ch.buf < ch.cap
      → fill p (suc rounds) now h ≡ fill p rounds now (after_round h p pool ch now)
  unfolding fill
  fill_up ch e up room = ground arith

-- What the loop returns, where `before` dials had been made and the pool at `p` is `start` with the
-- channel `ch`: no error after `rounds` dials that succeed, and then the pool is as it was but for that
-- many clients more in its channel; or the error after the first dial that fails. No connection is
-- closed in either.
pub data Filled (factor : ℕ → Bool) (before : ℕ) (shut : List Conn) (p : ℕ) (start : Pool)
    (ch : Chan) (rounds : ℕ) (err : Option Error) (h' : Heap) : Type 0 where
  full :
      (pool : Pool) (ch' : Chan)
      → err ≡ none
      → ((i : ℕ) → i < rounds → factor (before + i) ≡ true)
      → h'.pools p ≡ some pool
      → pool ≡ record start { clients = some ch' }
      → ch'.cap ≡ ch.cap
      → length ch'.buf ≡ length ch.buf + rounds
      → h'.dials ≡ before + rounds
      → h'.closed ≡ shut
      → Filled factor before shut p start ch rounds err h'
  cut :
      (made : ℕ)
      → err ≡ some pool_init
      → made < rounds
      → factor (before + made) ≡ false
      → h'.dials ≡ before + made + 1
      → h'.closed ≡ shut
      → Filled factor before shut p start ch rounds err h'

Filled-suc :
    (factor : ℕ → Bool) (h : Heap) (p : ℕ) (pool : Pool) (ch : Chan) (now : Time) (rounds : ℕ)
    (err : Option Error) (h' : Heap)
    → factor h.dials ≡ true
    → Filled factor
        (suc h.dials)
        h.closed
        p
        (record pool { clients = filled ch (new_client p now h.dials) })
        (record ch { buf = ch.buf ++ some (new_client p now h.dials) ∷ [] })
        rounds
        err
        h'
    → Filled factor h.dials h.closed p pool ch (suc rounds) err h'
Filled-suc factor h p pool ch now rounds err h' up
      (full pool' ch' e ups there e' cap len dials closed) =
    full pool' ch' e
      (elim [
        | zero ↦ λ lt. subst (λ n. factor n ≡ true) (omega arith) up
        | suc i ↦ λ lt. subst (λ n. factor n ≡ true) (omega arith) (ups i (omega arith))
      ])
      there e' cap (omega (arith, length-append ch.buf (some (new_client p now h.dials) ∷ [])))
      (omega arith) closed
Filled-suc factor h p pool ch now rounds err h' up (cut made e lt down dials closed) =
    cut (suc made) e (omega arith) (subst (λ n. factor n ≡ false) (omega arith) down) (omega arith)
      closed

same : (pool : Pool) (ch : Chan) → pool.clients ≡ some ch → pool ≡ record pool { clients = some ch }
same pool ch e = ap (λ c. record pool { clients = c }) e

-- The loop returns, if the channel has room for its rounds.
pub fill-Filled :
    (rounds : ℕ) (h : Heap) (p : ℕ) (pool : Pool) (ch : Chan) (now : Time)
    → h.pools p ≡ some pool
    → pool.clients ≡ some ch
    → length ch.buf + rounds ≤ ch.cap
    → (err : Option Error) × (h' : Heap) × (fill p rounds now h ≡ ret err h')
      × Filled pool.factor h.dials h.closed p pool ch rounds err h'
fill-Filled zero h p pool ch now here e room = (
  none,
  h,
  fill-none h p now,
  full pool ch refl (λ i lt. absurd (omega arith)) here (same pool ch e) refl (omega arith)
      (omega arith) refl,
)
fill-Filled (suc rounds) h p pool ch now here e room = elim (Bool-cases (pool.factor h.dials)) [
  | inl up ↦
      let (err, h', r, f) =
        fill-Filled rounds (after_round h p pool ch now) p
          (record pool { clients = filled ch (new_client p now h.dials) })
          (record ch { buf = ch.buf ++ some (new_client p now h.dials) ∷ [] }) now (ground arith)
          refl (omega (arith, length-append ch.buf (some (new_client p now h.dials) ∷ []))) in
      (
        err,
        h',
        fill_up h p pool here rounds now ch e up (omega arith) ∙ r,
        Filled-suc pool.factor h p pool ch now rounds err h' up f,
      )
  | inr down ↦ (
    some pool_init,
    record h { dials = suc h.dials },
    fill_down h p pool here rounds now down,
    cut 0 refl (omega arith) (subst (λ n. pool.factor n ≡ false) (omega arith) down) (omega arith)
        refl,
  )
]
