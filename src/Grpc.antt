-- ===== src/Grpc.antt =====
-- pkg/plugins/pool/grpc: the connection pools and the gRPC proxy.
pub mod Heap
pub mod Pool
pub mod Race
pub mod Tenant
pub mod System
pub mod Balance
pub mod Token
pub mod Director
pub mod Gateway
pub mod Discovery
pub mod Dial
pub mod Health
pub mod Report
pub mod Codec
pub mod Handler
pub mod Service
pub mod Server
