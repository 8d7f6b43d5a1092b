-- ===== src/Lib.antt =====
-- Verification of libevent 2.0.21, the event notification library that makes up the C code of this
-- repository. Paths below are inside codes/libevent-2.0.21-stable.
--
-- A user fills a `struct event`, adds it to an event base and gets a callback when its descriptor is
-- ready, its signal comes or its time is over. event_add puts the event into a map by descriptor or by
-- signal (evmap.c), which tells the backend what to watch, into the queue of all events, and, if it
-- has a timeout, into a heap of timeouts (minheap-internal.h). event_active puts it into the queue of
-- its priority, and event_del takes it off everything. event_base_loop asks the backend, activates the
-- events whose time is over, and runs the callbacks of the first priority that has active events. Beside this the library has buffers of bytes
-- (buffer.c), which move between each other without copying, and a wire format of tagged data
-- (event_tagging.c), and bufferevents, which suspend and resume reading and writing
-- (bufferevent.c), with token buckets to limit their rate (bufferevent_ratelim.c).
--
-- - Event: the EV_ bits of include/event2/event.h as a record of Booleans (What). Event/Time: the
--   timeval macros of include/event2/util.h.
-- - EventBase: event.c. The base is a record that the calls pass on, and an event is a number, whose
--   fields stand in the base. EventBase: event_queue_insert and event_queue_remove;
--   EventBase/Setup: event_assign, priorities and event_pending; EventBase/Timers: timeout_next and
--   timeout_process;
--   EventBase/Calls: event_add_internal, event_del_internal and event_active_nolock. EventBase/Loop: the
--   closures and event_process_active; Loop/Rounds: event_base_loop. Loop/Taken, Quiet, Queue, Order, Persist and
--   Ends have their proofs. The
--   other proofs are in EventBase/Queues (flags and queues in step), EventBase/Calls/Steps, Add, Del,
--   Active and Frames (what they leave alone).
-- - MinHeap: the functions of minheap-internal.h by their own names. MinHeap/Order, Sift and Ops have
--   the order of the heap, the loops with their hole, and the operations.
-- - Evmap: the map of descriptors (evmap_io_add, evmap_io_del). Evmap/Io and Sync have its proofs.
--   Evmap/Signal: the map of signals. Evmap/Changelist: the list of changes that a backend collects
--   between two system calls.
-- - Buffer: buffer.c and evbuffer-internal.h. A buffer is the list of its chains, last_with_datap is
--   the number of chains before the pointer that it points at, and the calls to callbacks are a list.
--   Buffer: chains, evbuffer_chain_insert and evbuffer_invoke_callbacks; Buffer/Add, Drain and Move:
--   the calls that add, take and move bytes. Buffer/Chains has the bytes of a buffer, Buffer/Drain/Remove what is taken off it; Move/Whole, Split and Part the proofs on two buffers.
-- - Ratelim: the token buckets of bufferevent_ratelim.c. Ratelim/Refill and Bounds have their
--   proofs.
-- - Bufferevent: suspending, enabling and the watermarks of bufferevent.c, with the two sides, reading
--   and writing, of a bufferevent, and what be_ops are told. Bufferevent/Told has the proofs.
--   Bufferevent/Limit: the limit of one bufferevent in bufferevent_ratelim.c, with its proofs in
--   Limit/Free and Limit/Stuck; Host is its clock, its configurations and event_add.
-- - Tagging: event_tagging.c, where an evbuffer is the list of its bytes and the calls of buffer.c
--   (add, copy out, drain) are operations on that list. Tagging/Nibbles, Tag and Message have the
--   integers, the tags and whole messages.
-- - Dns: evdns.c, as far as it makes and reads packets. Dns: name_parse and dnsname_to_labels with its
--   table of labels; Dns/Query: evdns_request_data_build, which a client calls, and request_parse,
--   which the server that this file has calls. Dns/Parse has the end and the bounds of name_parse, Dns/Labels
--   the bytes of a name, Dns/RoundTrip and Dns/Query/Delivered the way back.
-- - Http: evhttp_uriencode and evhttp_uridecode of http.c, with Http/RoundTrip.
-- - Prelude: Boolean tests on numbers, and lemmas on lists, options and tests;
--   Prelude/Memory: memcpy and memmove on memory as a function, for Buffer and Dns, and the characters of a C string; Prelude/Int: the
--   signed numbers of bytes that a limit is lowered by.
--
-- Parts interact by calls: EventBase passes the maps and the heap to the functions of Evmap and
-- MinHeap, and gives the heap its comparison (min_heap_elem_greater) as an argument. The modules Examples
-- apply the theorems to concrete inputs.
--
-- What the code asks of others is a parameter: the allocator, the backend's add and del and the
-- clock are fields of World, Host and SignalHost, the callbacks of User, and the backend's dispatch of
-- Round. `none` of a call of the event base is the end of the program: event_errx, an assertion, or a
-- write behind the array of active queues, which the code does not test for. A status `crashed` of a
-- map is an assertion that fails or a null pointer followed.
--
-- Loops run on fuel where they are not structural: the loops of the heap on the index of the hole
-- (up) and the size (down), which bound their rounds; timeout_process on the size of the heap, which
-- each round lessens; the doubling of evmap_make_space on the slot
-- that it has to pass; the tag loops on the five bytes of a 32-bit tag; the nibble loops on twice the
-- size of the integer; the doubling of evbuffer_chain_new on the size that it has to reach;
-- name_parse on the characters of its buffer, the bytes of the packet and one, since each round makes the
-- name longer or counts a pointer; dnsname_to_labels on the characters of the name and one, since each round
-- but the last passes a dot. Callbacks may go on activating events: event_process_active has fuel for each
-- queue, enough if it is more than the length of the queue and callbacks leave the base alone, and
-- event_base_loop runs for the rounds that it is given.
--
-- Not modelled: event_base_once and event_base_loopexit, a clock that goes back, common timeouts, other threads and
-- their locks, the debug mode, the hash table that replaces the map on Windows, negative times, and a wrap-around
-- of the counts of events and of the heap's size; a count that would fall below zero stays there.
-- Of buffer.c evbuffer_prepend, pullup, expand, reserve and commit, the searches, references, files,
-- pinned chains, deferred callbacks and callbacks that change the buffer are not modelled; its sizes do
-- not overflow, and a pointer has eight bytes. An empty chain behind the data, as evbuffer_expand leaves one, is
-- outside the well-formed buffers of its theorems.
-- Of bufferevents their callbacks, timeouts and kinds are not modelled, and of rate limits the groups.
-- Of evdns.c the packets of answers, the resolver, its timeouts, and the files that configure it are not
-- modelled, and one answer of the allocator stands for those of a whole call. Of http.c nothing but the encoding of URIs is
-- modelled; evhttp_uriencode gets as many bytes as its length says, and evhttp_encode_uri those before the first zero.
-- The assertion fd == ev->ev_fd of evmap_io_add and evmap_io_del is not modelled, as the event base
-- passes ev_fd itself, and the numbers of slots of a map do not overflow an int. The backends are another part of the library.
pub mod Buffer
pub mod Bufferevent
pub mod Dns
pub mod Event
pub mod EventBase
pub mod Evmap
pub mod Http
pub mod MinHeap
pub mod Prelude
pub mod Ratelim
pub mod Tagging
