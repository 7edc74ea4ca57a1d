-- ===== src/Lib.antt =====
-- SinkSDDS receives BulkIO streams of octets, shorts or floats and sends the data as SDDS packets
-- over UDP. This library models the C++ of cpp/ and proves how its parts behave.
--
-- The parts and their files
-- * cpp/sddspacket.h, the packet header and its time. Packet/Bytes.antt has the byte swaps,
--   Packet/Time.antt the class SDDSTime with its operators (`add`, `sub`, `lt`, `eq`),
--   Packet/Header.antt the header fields of SDDSpacket with each setter and getter under its name.
--   Packet/Flags.antt sees the word `msptr` as the flags and the pointer that it packs,
--   Packet/Wire.antt has the bytes of the header in a datagram (`encode`), Packet/Layout the
--   widths of the fields, Packet/Decode a reader of the bytes.
-- * cpp/struct_props.h, the property structures: Settings.antt, the comparisons in
--   Settings/Equality.antt, and the operators `>>=` and `<<=` in Settings/Conversion.antt
--   (`extract_network`, `insert_network` and so on), with the proofs in
--   Settings/Conversion/RoundTrip.
-- * cpp/BulkIOToSDDSProcessor.h and .cpp, one processor for each kind of port.
--   Processor/Types.antt has its members (`Processor`), the platform (`Env`) and the calls that
--   leave the class (`Call`). The methods are in Processor/Keywords.antt (addModifyKeyword),
--   Template.antt (initializeSDDSHeader, overrideSddsHeader, setSddsHeaderFromSri,
--   setSddsTimestamp, getStartOfYear), Reading.antt (getDataPointer), Send.antt (sendPacket),
--   Calls.antt (callAttach, callDetach, pushSri), Loop.antt (_run and shutdown) and Lifecycle.antt
--   (the constructor, the setters, run, join, setStream, removeStream, the destructor). The
--   folders beside them hold the proofs: Template/Fields, Template/Layout, Reading/ByteOrder,
--   Reading/Payload, Send/Fuel, Send/Numbering, Send/Delivery, Send/Stamp, Send/Marks,
--   Send/Padding, Calls/Annotation, Loop/Frame, Loop/Ending, Loop/Outcomes, Loop/Resume,
--   Loop/Transfer with its children, and Lifecycle/Restart. Moves.antt has the steps of `_run`,
--   Moves/Runs compares them with `run_thread`; Moves/Active is about the active stream; Invariant
--   and Invariant/Control say what an invariant of the header template, the sequence number and
--   the calls needs to hold after every method and every step of the thread; Numbered (the numbers
--   of all datagrams) and Datagrams (their bytes) are two such invariants.
-- * cpp/SinkSDDS.h and .cpp, the component, and its base class of cpp/SinkSDDS_base.cpp.
--   Component.antt has the state (`Component`), the listeners of new and removed streams,
--   streamsDone and the status. Component/Session.antt has start, stop, setupSocket, the property
--   setters and newConnectionMade; Component/Session/Descriptors adds the sockets that start and
--   stop open and close; Component/Framework has the construction, the registered properties and
--   the start and stop of the base class. The proofs are in Component/Decks, Component/Handover,
--   Component/Session/Routing, Component/Session/Opening, Component/Session/Lifetime,
--   Component/Session/Announcing, Component/Session/Descriptors/Attempt,
--   Component/Session/Descriptors/Owned and Component/Session/Descriptors/Leaks.
-- * System.antt puts the component, the threads of its processors and the callbacks together:
--   `Step` is one step of any of them, `Reach` a sequence of steps. System/Attention,
--   System/Forward, System/Attended, System/Single and System/Everywhere, with its instances
--   System/Sound and System/Widths, have invariants of the steps, System/Waiting and
--   System/Schedules compare them with `start` and `stop` of Component/Session.antt, System/Races
--   and System/Starving look at single orders of the steps, around a late callback and around
--   `start`.
-- * cpp/socketUtils/multicast.cpp and unicast.cpp, opening the socket: Sockets.antt, with the
--   proofs in Sockets/Matching, Sockets/Unicast and Sockets/Multicast. Sockets/Resources has the
--   same functions with an account of the open sockets and the allocated buffer, which
--   Sockets/Resources/Left is about; Sockets/Clients has the client functions, receiving, sending,
--   polling and closing, with the record `Io` for the system calls. The system calls are the
--   record `Os`.
-- * Base.antt and its children hold Boolean tests, lists and bits over the native numbers and C
--   strings, Float.antt the type of a `double`, Tests the theorems at concrete inputs.
--
-- How the parts interact
-- A listener gives a stream to its processor (`set_stream`) or puts it on deck; `run` attaches,
-- overrides the header and starts the thread; the thread (`run_thread`) reads the stream, sends
-- packets, detaches at the end of the stream and calls streamsDone, which gives the stream on deck
-- to its processor. `start` hands settings and the connection to the processors and runs them,
-- `stop` shuts them down and joins them.
--
-- How state and effects are modelled
-- The three methods for a new stream differ only in the port, and so do the three processors:
-- `Native` is the port. A `double` is its bit pattern, and floating point is a parameter
-- (`FloatOps`), as are sendmsg, the clock, gmtime, mktime, timezone and BULKIO::TCS_VALID (`Env`).
-- Calls to ports, the socket and the parent are appended to the list `calls`, and the answer of
-- sendmsg may depend on all calls before it. What the stream answers to the blocking read is a
-- list of `Read`s, each with what other threads requested meanwhile; when the list is used up a
-- read returns nothing, as it does once the ports are stopped. A thread is at one of the points
-- where another thread can act on it: not begun, about to test `m_shutdown`, blocked in the read,
-- over. Where a method joins the thread, the reads that are still to come are an argument. A
-- method that holds the stream lock is one step of the system. `start` and `stop` hold no lock and
-- are several steps, of which `Control` is the next one; the framework makes one such call at a
-- time. In the system a thread takes its steps by itself, and a callback is served at any time
-- after the thread that made it has ended; where a method other than `stop` waits for a thread,
-- that thread gets to its end in the same step. The listener of removed streams, the property
-- setters and newConnectionMade hold no lock and are one step all the same. CORBA::Any and
-- redhawk::PropertyMap are the record `PropertyMaps`. Integers are natural numbers with their
-- wrap-around written out; signed ones are their bit patterns. The host is little-endian, as
-- cpp/sddspacket.h assumes.
--
-- Fuel
-- sendPacket calls itself with what is left of the bytes. The model has one unit of fuel more than
-- there are bytes, and each call sends at least one byte, so that the fuel is never used up. The
-- loop of `_run` has no bound in the source; the model follows it along the finite list of reads,
-- with one read that returns nothing after the last, so that the model's loop ends by
-- construction. All other loops run over a list or a fixed count.
--
-- What is not modelled
-- Logging; what the framework does behind its calls, which are a parameter (`Framework`), beyond
-- the started flag and the result of stopThread; the text of the exceptions of
-- cpp/socketUtils/SourceNicUtils.cpp, which only throw; printing a time; main.cpp; the changes
-- that one thread makes to a member while another is in the middle of a round of its loop, but for
-- `m_shutdown`; the conversion of the number of bytes of a block to an `int`, which a block of
-- less than 2^31 bytes does not notice; what the framework does with the listener that
-- removeStream unregisters, other than calling it.
pub mod Base
pub mod Float
pub mod Packet
pub mod Settings
pub mod Processor
pub mod Sockets
pub mod Component
pub mod System
pub mod Tests
