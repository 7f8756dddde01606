-- ===== src/Go.antt =====
-- What the sources use of Go's language and standard library, as interfaces and data.
pub mod Float
pub mod Time
pub mod Map
pub mod Channel
