-- ===== src/Stream2.antt =====
-- eigerApp/src/stream2.c and stream2.h: the parser of the messages of the stream2 interface.
pub mod Memory
pub mod Types
pub mod Monad
pub mod Scalars
pub mod Arrays
pub mod Values
pub mod Start
pub mod Image
pub mod EndMsg
pub mod Free
pub mod Parse
pub mod Tokens
pub mod Tests
pub mod Sound
pub mod Triple
pub mod Numbers
