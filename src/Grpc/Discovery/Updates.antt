-- ===== src/Grpc/Discovery/Updates.antt =====
-- What `InitPoolFromExistEngineForUpdate` does to a service whose number of connections has changed.
use rpc_pigeon.Common.Text.{Text}
use rpc_pigeon.Grpc.Heap.{Pool, Heap}
