-- ===== src/StreamApi.antt =====
-- eigerApp/src/streamApi.cpp: the receiver of the first version of the stream, in which a frame is a
-- sequence of messages with headers in JSON.
pub mod Outside
pub mod Monad
pub mod Tokens
pub mod Messages
pub mod Frame
pub mod Balance
pub mod Tests
