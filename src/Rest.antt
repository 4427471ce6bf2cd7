-- ===== src/Rest.antt =====
-- eigerApp/src/restApi.cpp: the HTTP client of the detector, its sockets, and the requests it makes.
pub mod Outside
pub mod Monad
pub mod Header
pub mod Sockets
pub mod Request
pub mod Blob
pub mod Commands
pub mod Create
pub mod FileNames
pub mod Locks
pub mod Tests
