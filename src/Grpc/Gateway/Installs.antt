-- ===== src/Grpc/Gateway/Installs.antt =====
-- The pool that `InitGrpcPoolByOmp` makes of an engine that was found.
use rpc_pigeon.Common.{ℕ, ◌≡◌, ◌∷◌, ◌++◌, false}
use rpc_pigeon.Common.Text.{Text, eq_text, to_lower}
use rpc_pigeon.Grpc.Heap.{Time, Factory, Heap}
use rpc_pigeon.Grpc.Gateway.Makes.{PoolAs}
use rpc_pigeon.Grpc.Gateway.{EngineConfig, Found}

-- The configurations of other engines are passed over.
abbrev pub IsOther : Found → EngineConfig → Type 0
IsOther found c = eq_text (to_lower c.engine_name) found.engine_type ≡ false

module _ (dial : Text → Factory) (now : Time) (found : Found) where
  -- The address of the engine.
  abbrev pub addr_of : EngineConfig → Text
  addr_of c = found.server_host ++ b':' ∷ c.engine_server_port

  -- The pool that is made, with a name and an address.
  abbrev pub Installed : EngineConfig → (size : ℕ) → Heap → ℕ → Type 0
  Installed c size h p = PoolAs found.scene_code (addr_of c) size h p
