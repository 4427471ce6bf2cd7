-- ===== src/Stream2Api.antt =====
-- eigerApp/src/stream2Api.cpp: the receiver of the second version of the stream, which hands out the
-- images of messages that `stream2_parse_msg` has read.
pub mod Outside
pub mod Monad
pub mod Messages
pub mod TimeStamp
pub mod Frame
pub mod Life
pub mod Owns
pub mod Bounds
pub mod Tests
