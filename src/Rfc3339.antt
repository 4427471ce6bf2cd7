-- ===== src/Rfc3339.antt =====
-- eigerApp/rfc3339Src/rfc3339.h: the time stamps of the stream.
pub mod Digits
pub mod Parse
pub mod Print
pub mod Tests
