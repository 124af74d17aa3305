-- ===== src/Lib.antt =====
-- ft_irc_refactor: an IRC server. This library models its code and proves properties of it.
--
-- The program. `IrcServer` (include/Server.hpp, src/Server.cpp) owns the sockets, the clients and
-- the channels. Its loop `run` polls the descriptors, accepts clients, reads bytes into the receive
-- buffer of a `Client` (src/Client.cpp), takes messages out of it, and hands each to a `Cmd`
-- (src/Cmd/), which changes clients and `Channel`s (src/Channel.cpp) and sends replies through
-- `castMsg`. A client that has to go is only marked; `cleanupMarkedClients` removes it at the end of
-- the turn. `ArgParser` (src/ArgParser.cpp) checks the arguments of the program.
--
-- The files, and the code that each is about:
--   Base           bytes, texts, lists and ordered maps, with the C library's character tests
--   Client         include/Client.hpp, src/Client.cpp; Extract and Stream are about extractMessage
--   Channel        include/Channel.hpp, src/Channel.cpp
--   Reply          include/ReplyCode.hpp
--   Server.State   the members of IrcServer, the heap of clients, and statements as functions
--   Server.Net     src/Server.cpp: lookup, marking, castMsg, broadcastMsg and the maps
--   Server.Teardown  src/Server.cpp: acceptClient, removeClientFromServer, cleanupMarkedClients,
--                  checkPingTimeOut
--   Server.Loop    src/Server.cpp: processServerEvent, processClientRead, processClientWrite,
--                  canRecover and run
--   Server.Startup src/Server.cpp: the constructor's state, init and the destructor
--   Server.Legacy  src/Server.cpp: handleSocketRead and handleSocketWrite, which nothing calls
--   Server.Keeps, Server.Effects   rules for what statements keep, change and throw
--   Server.Turning what an invariant of the loop has to survive, and that it then holds in all turns
--   Server.Output, Server.Errors, Server.Objects, Server.Ordered, Server.Capacity,
--   Server.Registration, Server.Leaving, Server.Shutdown, Server.Distinct, Server.Members,
--   Server.Laws, Server.Staying, Server.Occupied   proofs about sending, exceptions, the heap,
--                  the table of clients, the slots of poll, registration, the end of clients, the destructor, the nicknames, the
--                  participants of the channels, who enters and leaves them and who hears what is
--                  said there, the operators, keys and limits of the channels, and
--                  which channels begin and end
--   Cmd            src/Cmd/: Context and Dispatch are Cmd.cpp; Split holds the splitters; Register is
--                  CAP, PASS, NICK, USER, PING and QUIT; Join, Part (with KICK), Invite, Topic, Mode
--                  and Privmsg are the other handlers; Proper, Frame, Errors, Guards, Admission,
--                  Authority and Members hold proofs
--   Args           src/ArgParser.cpp and the checks of the constructor of IrcServer
--   Program        src/main.cpp: main from its arguments to its exit code, and what holds from the
--                  server's start on
--   Examples       concrete servers, clients and messages
--
-- How the code is modelled. The names are those of the code in lower case with underscores. A byte is
-- a number, a std::string a list of bytes; std::map and std::set are lists in the order of their
-- keys. A `Client*` is an address in the heap that the state of the server holds, so a pointer to a
-- deleted client is one that is found no more. A handler is a function from a state to an outcome and
-- a state: it ends, it throws a text (CmdException or ServerException), or it meets undefined
-- behaviour (`fault`), as when it follows a null or dangling pointer or reads an end iterator. The
-- unsigned size of a channel wraps at 2 ^ 32, and atoi gives an int of 32 bits.
--
-- Bounds and fuel. The loop over the messages of a receive buffer runs on fuel, one more than the
-- bytes in the buffer: each message takes at least one byte. The loop of Cmd::split runs on fuel
-- too, one more than the bytes of its text, and each round moves past one byte. All other loops
-- are recursion on a list.
--
-- What the kernel does is a parameter: the results of socket, bind, listen and fcntl (Sockets), the
-- result of each call of send (Env), what accept and poll report, and the bytes that recv gives
-- (Accepted, Poll, Revents). So are the lines of the MOTD file and the text of strftime. Not
-- modelled, because it only prints or is only declared: the log (serverLog, printGoat, printLog,
-- intToString), the colours, the enumeration of error codes, getters, and the moment at which a
-- signal ends the program.
pub mod Base
pub mod Client
pub mod Channel
pub mod Reply
pub mod Server
pub mod Cmd
pub mod Args
pub mod Program
pub mod Examples
