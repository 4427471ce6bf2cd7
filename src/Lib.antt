-- ===== src/Lib.antt =====
-- The message parser, the detector parameters the REST client and the receiver of
-- images of ADEiger, the areaDetector driver of the Eiger
-- X-ray detectors.
--
-- The driver reads the detector's images from a stream of CBOR messages and its settings over a REST
-- interface. Six parts stand here.
--
-- Stream2: eigerApp/src/stream2.c and stream2.h. `stream2_parse_msg` turns a buffer into a start,
-- image or end message on the heap, through the library tinyCBOR, and `stream2_free_msg` gives the
-- message back.
--   * Cbor is what the parser relies on of tinyCBOR: an `Env` has the position type of a `CborValue`,
--     the calls, the bytes of the buffer, and which calls of the allocator are granted. Its laws,
--     `MovesForward`, say that the calls leave fewer bytes than before, and that a container has no
--     more elements than bytes.
--   * Stream2/Memory is the heap: the blocks that are allocated, and the number of the next one.
--     `free` faults on a block that is not allocated; a loop over an array that is `NULL` faults too.
--   * Stream2/Types has the structs of stream2.h. A pointer to a text is the block and the text; an
--     array on the heap is the block and its elements.
--   * Stream2/Monad: a parser for a struct gets the struct that its pointer shows and the heap, and
--     leaves both changed, also when it fails. A `Field` is a member whose address is passed on.
--   * Stream2/Scalars, Arrays, Values, Start, Image, EndMsg, Parse and Free are the functions of
--     stream2.c, with the names of the source. A block of `parse_start_msg` or `parse_image_msg`
--     for one key is a function of its own. The chain of `strcmp` is a table from keys to
--     constructors and a function by clauses on these.
--   * Loops that the source writes with `while (!cbor_value_at_end(...))` take fuel. Every turn of
--     one consumes a byte or ends the loop with an error, so the size of the buffer is enough.
--   * Stream2/Sound (a parser ends, keeps count of its blocks, and leaves a struct that can be freed),
--     Stream2/Triple (what holds of the struct after success) and Stream2/Numbers are the proofs.
--     Stream2/Tokens is an `Env` from a list of tokens, in which Stream2/Tests runs the parser.
--
-- Param: eigerApp/src/eigerParam.cpp and eigerParam.h. An `EigerParam` is a value that the detector
-- and the driver share, with its type, limits and allowed values; an `EigerParamSet` has them all.
--   * Param/Outside is what the code uses of its surroundings: the text of numbers, floating-point
--     arithmetic, the JSON parser frozen, `RestAPI::get` and `put`, and the parameter library of
--     asynPortDriver.
--   * Param/Types has the object and the shape of its methods: they return, fail, or read a vector out
--     of bounds, which C++ leaves undefined.
--   * Param/Json, Text, Get, Fetch, FetchAll, Put and Create are the methods, with the names of the
--     source and the type of the value behind them, as in `put_int` for `put (int)`.
--   * Param/Clamp, Enums, Guards, FetchBool and Names are the proofs, and Param/Tests has runs.
--
-- Rest: eigerApp/src/restApi.cpp and restApi.h. A `RestAPI` sends HTTP requests to the detector over a
-- few sockets, each with a mutex, and reads the replies.
--   * Rest/Outside is what the code uses of its surroundings: the calls on sockets, the heap, the clock,
--     `sscanf`, `printf` and frozen. A text is a list of bytes.
--   * Rest/Monad has the state, the sockets with who holds their mutexes, and the shape of the methods:
--     they return, fail, or do what C++ leaves undefined.
--   * Rest/Header is `parseHeader`, Rest/Sockets the choice and the connection of a socket, Rest/Request
--     `doRequest`, Rest/Blob `getBlob`, Rest/Commands the requests, Rest/Create the constructor, and
--     Rest/FileNames the names of files. A `goto retry` returns `none` from the exchange, and `goto end`
--     ends it; what stands at the two labels is in `ended`.
--   * Other threads lock, use and unlock sockets at any time. A state has a list of their turns, and one
--     turn comes before each `tryLock`: it may change any socket, since this call holds none then. What they
--     do to the other sockets while this call holds one, which it does not look at, is part of the next turn.
--     No bound is set on the list; after its end the others are quiet.
--   * `doRequest` and `getBlob` call themselves at `retry`, by when the socket is unlocked; they get fuel for two
--     attempts more than there are turns, which is enough, since each attempt uses a turn up, and a quiet
--     one that follows a quiet one takes the same socket, which has been retried. The loop over the lines of
--     a header and that over the parts of a blob get fuel by the bytes that are left, of which each turn
--     takes one at least. `waitFile` runs until its time is over; its fuel is an argument.
--   * Rest/Header/Bounds, Header/Roundtrip, Header/Content, Blob/Length, FileNames/PutId, Locks, Locks/Exchange,
--     Locks/Taken, Locks/Used, Locks/Attempt and Locks/Attempts are the proofs, and Rest/Tests runs requests to a small server.
--
-- Stream2Api: eigerApp/src/stream2Api.cpp and streamApi.h. A `Stream2API` receives the messages, keeps
-- the message of an image, and hands out an array for each of its thresholds.
--   * Stream2Api/Outside is what it uses of ZeroMQ, of the pool of arrays and of the decompressors. All
--     messages lie in the memory of one `Env`, each at its own address.
--   * Stream2Api/Monad has the members of the class with the heap, Messages is `getHeader` and
--     `waitFrame`, TimeStamp and Frame are `getFrame`, and Life the constructor and the destructor.
--     `stream2_parse_msg` gets the size of the message as fuel.
--   * Stream2Api/Owns is what the receiver owns on the heap, with Owns/Messages, Owns/Frame and, for any
--     sequence of calls, Owns/Calls; Bounds is about the writes of `getFrame`; Tests has a run. They rest
--     on Stream2/Sound and Stream2/Triple.
--
-- StreamApi: eigerApp/src/streamApi.cpp. A `StreamAPI` receives the first version of the stream, where each
-- frame is a sequence of messages. StreamApi/Outside is what it uses of its surroundings; Monad the state,
-- with the number of messages that are open; Tokens the four `readToken`; Messages `getHeader` and
-- `waitFrame`; Frame `getFrame`; Balance the proofs; Tests a run. What a header says is a function of its
-- bytes, as in `header_of`. The shape of methods is that of Stream2Api/Monad.
--
-- Rfc3339: eigerApp/rfc3339Src/rfc3339.h. `parseRfc3339Timestamp` reads a date of the stream. Rfc3339/Digits
-- and Rfc3339/Parse have a function for each part of the pattern; Print is its inverse with the proof, and
-- Tests has the text of an example.
--
-- Detector: eigerApp/src/eigerDetector.cpp, the driver.
--   * Detector/Files is the list of files that `pollTask` makes for an acquisition, and Detector/Pipeline
--     the five tasks over it: a state with the queues and where each task stands, a function for what a
--     task does between two calls that wait, and a relation of the steps that can be taken. The outcome of
--     each call (`waitFile`, `getFile`, `write`) is left open; a send waits for room. A file is an index
--     of the list. Its owner and permissions are left out, and so are parameters that are only shown.
--   * Pipeline/Counts counts the references to a file, and Moves is what a step does with them. The proofs
--     are References, Pending and Invariant (the invariant), Starvation, Work and Progress (when `pollTask`
--     ends), and Once and Removal (what is removed from the server). Detector/Tests has runs.
--   * Detector/Control is `controlTask` with the writes of `writeInt32` to ADAcquire and the trigger: a
--     function for each stretch that holds the lock, from what happens while the lock is free (a `Moment`:
--     writes, frames, the answers of the detector, the ends of the two tasks) to the next place where it
--     is free. Control/State has the state, Control/Start the stretches up to the first trigger. The
--     numbers of images and triggers are natural, the times of the triggers are left out. A write of 0
--     that stops an acquisition is two steps, before and after the call of `abort`, for which the lock is free.
--   * Control/Spec is what a client may see: a function for each write, and a relation for a turn of the task;
--     Stretches and Refinement show that the driver keeps to it. Order
--     and Orderly are an invariant, Stopping is about the end after an abort, and Control/Tests has runs.
--
-- Numbers: an `int` of the parameters is an integer without bounds; a `uint64_t` is a native number,
-- with `% 2 ^ 64` where the source can exceed it.
--
-- Not modelled: of eigerApp/src/eigerDetector.cpp, the stream and monitor tasks, the rest of
-- the asyn interface and the constructor; eigerApp/tinyCBORSrc and eigerApp/frozenSrc, which are copies of other
-- projects; messages for the log; the databases and screens.
pub mod Base
pub mod Cbor
pub mod Stream2
pub mod Param
pub mod Rest
pub mod Stream2Api
pub mod StreamApi
pub mod Rfc3339
pub mod Detector
