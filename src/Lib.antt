-- ===== src/Lib.antt =====
-- QChatServer is a chat server in C++. A client connects over TLS and sends packages; each holds a
-- JSON message that asks for an operation on users, friends, groups and messages. This library
-- models the wire protocol, the state of the server and the test client, function by function, and
-- proves what they do, alone and together.
--
-- The parts, and where they are (paths from the repository's root):
--
-- Net: the wire protocol. Net.Endianness is utils/networkEndianness.hpp (`swapEndianness`,
-- `swapNetworkEndianness`), on a host of either endianness. Net.DataPackage is
-- utils/network/dataPackage.hpp (`makePackage`, `packageToString`, `stringToPackage`, `getData`),
-- Net.Package is utils/network/package.hpp (`write`, `canRead`, `firstMsgLength`, `read`).
-- Net.Connection is the read loop of `Network::process` in server/network/network.cpp: one event is
-- one read from the socket with the readings of the clock that follow it, `step` is a turn of the
-- loop and `run` the loop itself. Net.RateLimiter is server/network/rateLimiter.hpp, which says
-- which connections are taken. A byte is a number below 256.
-- Room: Room.Tcp is `TCPRoom` and `TextDataRoom` of server/room/room.cpp, Room.Kcp is `KCPRoom`.
-- Room.History is the map of messages that group rooms and private rooms keep. Room.Permission is
-- server/room/groupRoom/groupPermission.cpp. Room.Group is server/room/groupRoom/groupRoom.cpp:
-- Room.Group.Sending has the sending and reading of messages, Room.Group.Moderation muting, kicking
-- and operators. Room.Private is server/room/privateRoom/privateRoom.cpp.
-- Server: Server.User is the data of server/user/user.cpp and the methods that touch one user
-- alone. Server.State is the state of server/manager/manager.cpp and
-- server/manager/verificationManager.cpp, with the users' objects in it. Server.Manager has the
-- users and rooms, Server.Connections the connections, Server.Verification all of
-- verificationManager.cpp, Server.Friends and Server.Groups the methods of `User` from `addFriend`
-- to `leaveGroup`, which work on the whole server.
-- The requests: Server.Json is what the code takes from the JSON library, and the replies of
-- utils/returnStateMessage.hpp. Server.Process is server/jsonMessageProcess/JsonMsgProcess.cpp: the
-- checks of a message, the login and the dispatch. Server.Commands is the list of commands with
-- their types and options, from JsonMsgProcessCommand.h, and Server.Commands.Execute what each
-- does, from JsonMsgProcessCommand.cpp. Server.Service is `SocketService::process` of
-- server/socketFunctions/socketFunctions.cpp, which writes the answer. Server.Sessions puts the
-- parts together: the server with the sessions of its connections, a step relation for connections
-- that begin, send requests and end, and what can be reached by it. Server.Frame has the lemmas on
-- single calls for the proofs about Server.Sessions.
-- Options: utils/option.hpp, the parser of command lines, with Options.Words for the cutting of a
-- line at its spaces.
-- Console: server/input/input.cpp and server/input/inputCommands.cpp, the console of the server.
-- Client: the test client. Client.Network is testclient/network.cpp: the requests that wait for an
-- answer, what is done with the bytes that arrive, and the callbacks; Client.Network.Pending is
-- about the networks that can be reached. Client.Requests is what the methods of
-- testclient/session.cpp send, and Client.Session the methods, on a network that answers.
-- Client.Session.Exchange puts the client's network and the server's SocketService together, so
-- that the theorems below it go from a call of the client through both and back. Client.Commands is
-- testclient/commands.cpp, and Client.Commands.Execute what the commands do, with the loop of
-- testclient/main.cpp.
-- Room.Level is server/room/groupRoom/groupUserLevel.hpp.
-- Base: what the parts share. Base.Messages is utils/error/qls_error.cpp, Base.Int has signed
-- integers. Base.Errors is utils/error/qls_error.h and the other ways in which a call does not
-- return, Base.Calls is state with exceptions, Base.Dict is a map as a list of entries without an
-- order that matters to its laws.
--
-- A package that a connection takes goes to `SocketService::process`. It hands the text to
-- `processJsonMessage`, which logs in a user on the connection or runs a command for the local
-- user; the commands call the operations of Server, which change users and rooms and write to the
-- connections of the users concerned. The reply goes back in a package with the request's id. The
-- client keeps a function for each id of a request, and calls it with the package that bears the
-- id.
--
-- How the code is rendered. A method is a function from the state to a result and the new state;
-- what a call wrote before it threw stays written. Integers of the machine have their wrap-around
-- written out, and an id of a user, a group or a connection is the bit pattern of its 64 bits, so
-- that -1 is 2 ^ 64 - 1. A reading of a clock is an argument. An object behind a `shared_ptr` is
-- known by its id, and a change of it is a change of the entry of the map that owns it. A method
-- that holds its mutexes for its whole body is one step, and Server.Sessions takes a request as one
-- step; where a method calls another one while it holds a mutex, in Room.Group, the holds are an
-- argument, and so is the way in which a call ends that asks for a mutex which the thread's own
-- hold bars: the standard leaves it undefined, libstdc++ throws `resource_deadlock_would_occur`,
-- and others wait forever. Asking twice for a shared hold goes through, as it does in these
-- libraries while no writer waits.
--
-- Bounds and fuel. The loop that looks for a free time point is the only one on fuel: it gets one
-- round more than there are messages, and it is proved to end within them. The time points of
-- messages are unbounded numbers, as 64 bits of nanoseconds last for centuries. The client draws
-- ids until one is not in use: the numbers of its generator are a list, and a loop that has not
-- ended with it ends in `never_ends`, as does a future that nobody sets. The length of a package is
-- 32 bits and the round trip says so. Server.Sessions takes it that the counter of user ids has not
-- come to -1, which it does after almost 2 ^ 64 registrations.
--
-- Parameters. The digest of a password (OpenSSL) and the salt, the names that `getUser` gives to a
-- room, the readings of the clocks, the bytes of each read and, in Net.Connection, whether
-- `SocketService::process` returns are arguments of the definitions that use them. The JSON library
-- is the record JsonLibrary with the documented behaviour in JsonLaws: a value of a type is read by
-- the getter of that type, and what `find` finds is what `operator[]` gives; the texts that it
-- reads and writes are the record Texts. What the client calls of it to make a value is the record
-- JsonMaking with the behaviour MakingLaws, and the record Carries says of a request and a reply
-- that they are read as they were written and that their texts fit into packages. The expression
-- for emails, the numbers of the client's generator, `std::stoll` and the arithmetic of `double`
-- are arguments.
--
-- Not modelled: the members of `JsonMessageProcessImpl` that only reply that they are incomplete,
-- `get_double` of options, which is the standard library's conversion, the getters of `User`, which
-- only hand data out, TLS, sockets, threads and timers, `showBinaryData`, the logger and the
-- database. The client's requests are one step each: what two of its threads do in between is not
-- modelled, and neither is what the callbacks do.
pub mod Base
pub mod Client
pub mod Console
pub mod Net
pub mod Options
pub mod Room
pub mod Server
