-- ===== src/Proxy.antt =====
-- Multithreaded web-proxy: the request line and the headers of proxy.c (Uri, Headers), and the
-- cache of cache.c (Queue).
pub mod Text
pub mod Uri
pub mod UriPrint
pub mod Headers
pub mod Filtered
pub mod RequestEnd
pub mod Queue
pub mod ClientError
pub mod Service
pub mod Lock
mod Tests
