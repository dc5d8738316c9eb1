-- ===== src/Lib.antt =====
-- epoll-proxy: a TCP and HTTP proxy in C on epoll.
--
-- The program is one event loop. proxy_run (src/proxy/proxy.c) waits for events and calls a
-- handler for each: handle_accept takes connections from a preallocated pool
-- (src/network/connection.c), handle_read fills their buffers (src/network/buffer.c), parses HTTP
-- requests (src/http/http_request.c) and opens connections to the backend, handle_write drains the
-- buffers, and handle_connect and handle_error deal with the rest, all through the wrappers of
-- src/core/epoll.c.
--
--   Config            include/config.h: the constants and structs
--   Kernel            the system calls, calloc and what the C library leaves open, a parameter
--                     (`Os`) of all that uses them
--   Buffer            src/network/buffer.c; Buffer.Refine is its view as a queue of bytes, and
--                     Buffer.Queue follows any sequence of calls
--   Connection        src/network/connection.c; Connection.FreeList and Connection.Pool are the
--                     free list as a stack, and the invariant of the pool
--   Http              include/http_request.h and src/http/http_request.c; Http.Printed is a request
--                     as a client writes it
--   Epoll             src/core/epoll.c
--   State             the state of the proxy and commands over it
--   Proxy             src/proxy/proxy.c and the part of src/network/connection.c that makes calls,
--                     a module for each handler
--   Args              src/core/main.c: the command line; Args.Getopt is getopt_long as it is called
--   Program           src/core/main.c: main, from the memory that it allocates to its exit status
--   Safety            the invariant of the whole state, and each handler against it
--   Relay             the bytes of a pair from the one socket to the other, through the events of
--                     src/proxy/proxy.c
--   Examples          concrete runs
--
-- A function of the source has the name of the source, less the component's prefix where the
-- module has it (buffer_compact is Buffer.compact, connection_alloc is Connection.alloc,
-- http_request_parse is Http.Parse.parse). The pool's array is a function from indices, and a
-- `connection_t *` is an index; NULL and the descriptor -1 are `none`. A request that calloc gave
-- out lives in a heap by address, and the use of an address that is not live is `none`, as is a
-- loop that runs out of its fuel; no other undefined behaviour of C is followed. `size_t` arithmetic
-- wraps at 2 ^ 64 (add_size, sub_size). The counter requests_handled, a signed `int` that the
-- program never resets, is kept as its 32 bits and wraps where ISO C leaves the overflow undefined
-- (Proxy.Write.increment_int); free_count and the other `int`s are natural numbers, bounded by the
-- invariants.
--
-- A state is safe (Safety.IsValid) when the pool is sound (Connection.Pool.IsSound: the free list
-- holds distinct closed slots, the statistics count the others, the buffers' positions lie in
-- their arrays in order, and peers lie in the pool) and, in HTTP mode, every client in use has a
-- live request that no other client in use has; in TCP mode there are no requests. With a kernel
-- that never refuses to register a descriptor, every slot, closed ones too, owns the request that it
-- points to. `Safely` says of a command that it comes to its end, with no use of a request that
-- is not live, in a safe state. Five hypotheses on the kernel are named here:
-- Kernel.IsPosix (`read` and `write` do not count more than they were asked for),
-- Safety.Running.IsEpoll (the pointers of events are those that were registered, which are NULL and
-- connections of the pool), Safety.Drain.IsTaking (`write` takes at least one byte),
-- Safety.Received.IsConnecting (a connection to the backend can be begun) and
-- Kernel.IsReliable (no registration is refused; without it, a slot may keep a pointer to a freed
-- request, which proxy_cleanup frees again).
--
-- Relay follows the bytes between two sockets. A kernel is recorded (Relay.Traffic.IsRecorded) when
-- its state tells the bytes that `read` and `write` carried at each descriptor, and the calls that
-- work on a connection in use carry none otherwise; Relay.Traffic.logged makes any kernel such a
-- one. Relay.Reach.Reaches are the states that events on the two connections lead to, with anything
-- in between that leaves the two alone (IsElsewhere). It is about the way from a backend to its
-- client; the bytes of a client in HTTP mode go through the parser instead. Relay.Sent follows a
-- forwarded request out of the socket of its backend.
--
-- The fuel of the loops: handle_write's is one more than the size of the buffer, since each round
-- that goes on takes a byte out of it; those of handle_read_http_client and handle_read_tcp are
-- one more than the size of the buffers that they fill. handle_accept and proxy_run loop for as
-- long as the outside keeps them busy, and the model follows any given number of rounds.
--
-- getopt_long, strtol and strcmp are modelled as the C library documents them. atoll is strtol where
-- the number is in range; out of range, which ISO C leaves undefined, it returns any value
-- (Kernel.Os.atoll_overflow).
--
-- Not modelled: what is printed (print_usage, print_stats and the messages), the empty http_parser
-- files, the tests and benchmarks.
pub mod Base
pub mod Config
pub mod Kernel
pub mod Buffer
pub mod Http
pub mod Connection
pub mod State
pub mod Epoll
pub mod Proxy
pub mod Args
pub mod Program
pub mod Safety
pub mod Relay
pub mod Examples
