-- ===== src/Lib.antt =====
-- icetunnel carries TCP connections over UDP. A server (server.cpp) has TCP listeners, whose clients are
-- tunnelled, and UDP listeners, whose datagrams come from the other end of a tunnel. Each tunnelled
-- connection (connection.cpp) cuts the bytes of its TCP socket into packets (packet.cpp) with an index
-- and a CRC, sends them through the socket of its UDP listener and sends them again until they are
-- confirmed; the packets that it receives are put in order and written to the TCP socket. All this runs
-- in one thread, driven by events (event.cpp) that have a time and a source which makes them ready.
--
-- Which file models what:
--   Packet, Packet/Bytes, Packet/Crc, Packet/Pair: packet.h and packet.cpp. The bytes of a packet are a
--     list; `getType`, `setIndex`, `encode` and the others have their names in snake case.
--   Event, Event/Timer, Event/Manager: event.h and event.cpp. A world holds all events and sources by
--     number, and the two intrusive lists (`listReady`, and the list that doEvents raises) as ordered
--     lists. Event/Timer is the time of a single event, which a connection keeps for each of its own.
--   Connection and its children: connection.h and connection.cpp. State has the fields and the small
--     functions; Build has `tcpRead` and `buildUdpPackets`, Write `tcpWrite`, `tcpClose` and `udpClose`,
--     Confirm `buildConfirmations` and `buildByeBye`, Udp `udpWrite` and `udpResend`, Read `udpRead`;
--     Connection itself has the constructor and `handle`. Map is the `std::map` with int keys.
--   Server: server.h and server.cpp without log and statistics. Objects have the numbers that
--     `lastObjectIndex` gives them. Server/Destroy has `~Server`, whose loops make as many rounds as
--     their sets have entries.
--   Socket, Socket/Open: socket.h and socket.linux.cpp. A socket has a number, its five sources are five
--     sources of the events' world, and what a system call answers is an argument. Socket/Calls has the
--     operations as a list of calls.
--   Main: main.cpp, the table of the parameters and `init`, without the texts that it prints and with
--     numbers that are not negative.
--   Address: the operators of address.cpp.
--   Prelude and its children: lists over native numbers, 32-bit words, exclusive or.
--   The other files hold theorems: Connection/Frame says what the handlers leave alone, and
--     Connection/Delivery follows the bytes from the received packets to the TCP socket,
--     Connection/Side and Connection/Sender those from the TCP socket to the packets that are sent, and
--     Connection/Sender/Tunnel has both ends together. Tests runs
--     them at concrete inputs.
--
-- Conventions:
--   Ints that are counted up and down are 32-bit patterns with wrap-around; the index counters are
--   natural numbers, since their overflow is undefined in C++. A time is a natural number, and the
--   value -1 of a disabled event is `none`. A handler reads the clock once. What the system gives (the
--   clock, the results of the socket calls, rand) is a parameter, as is the floating-point arithmetic of
--   the send interval, and so is what is read through `udpSentPackets.end()`. A division by zero is
--   recorded in the field `fault`.
--   `udpSummaryConnectionsSendIntervalUs` is written only and is left out.
--
-- Loops: `tcpWrite` makes at most udpReceivedMasterIndex - tcpNextSendIndex rounds, since each moves the
-- second on; `buildUdpPackets` takes a byte at least in each round and has as many rounds as bytes; the
-- loop that moves `udpReceivedMasterIndex` passes an entry of the map in each round; the pairs of a
-- confirmation take two bytes each; `doEvents` raises as many events as it has shuffled. The others go
-- over a list.
--
-- Not modelled: the sockets of Windows, the platform, the log, the parsing of addresses, the tests
-- and benchmarks (`~Server` is modelled without its loop over the test listeners), the pointers of the
-- intrusive lists, `stepWhile` and `run`, and in `poll` the growth of its buffer and its pause after a
-- failure. `Connection.run` is no function of the program: it hands a connection any list of inputs,
-- which covers what `doEvents` does.
pub mod Prelude
pub mod Packet
pub mod Event
pub mod Connection
pub mod Address
pub mod Socket
pub mod Server
pub mod Main
pub mod Tests
