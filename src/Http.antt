-- ===== src/Http.antt =====
-- gudov/http: messages, servlets, connections and the connection pool.
pub mod Method
pub mod Status
pub mod Message
pub mod Request
pub mod Response
pub mod Print
pub mod Laws
pub mod Reader
pub mod RoundTrip
pub mod Dump
pub mod ReadBack
pub mod Servlet
pub mod Dispatch
pub mod Pool
pub mod PoolLaws
pub mod PoolAge
pub mod Client
pub mod ClientLaws
mod Tests
