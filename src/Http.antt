-- ===== src/Http.antt =====
-- The HTTP side of the gateway: pkg/plugins/proxy/http.go.
pub mod Routes
pub mod Query
pub mod Client
pub mod Proxy
pub mod Server
pub mod Session
pub mod Timeout
pub mod Tracing
pub mod RequestJob
pub mod Cors
pub mod Answers
