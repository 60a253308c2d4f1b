-- ===== src/Lib.antt =====
-- The server of the encrypted message demo: clients agree on a session key with it, send it
-- messages under that key, and it stores each message again under the key of the receiver.
--
-- The parts, and the files that they model (paths under ServerSeckey/ServerSeckey/, those of the client
-- under ClientSecKey/ClientSecKey/):
-- - Cache is for SecKeyShm.cpp and SeckKeyNodeInfo.h. The shared memory is the list of its slots;
--   shmWrite, shmRead and shmUpdateStatus are shm_write, shm_read and shm_update_status, and take whether the
--   segment was attached.
-- - Database holds the tables and the statements that mysqlOP.cpp sends, as data, and KeyLifecycle.h.
--   Database/Effect says what a statement does and answers; the collation is a parameter.
-- - Outside holds what the server calls and does not implement (MySQL, the clock, OpenSSL, protobuf,
--   files) as a record of functions, the state of a process, and the state monad of its handlers.
--   Outside/Laws holds the hypotheses: a statement that fails changes nothing or ends the
--   transaction with a rollback; one that succeeds has its effect, and may lose its result set;
--   start, commit and rollback act on the tables saved; base64 and AES-GCM undo themselves.
-- - KeyStore is for mysqlOP.cpp on the tables seckeyinfo and keysn. writeSecKeyWithTrans is one
--   function for each of its statements; `none` of the older functions is a read of a null result set.
-- - MessageStore is for mysqlOP.cpp on message_log and audit_log, MessageRepository.cpp, AuditService.cpp.
-- - MessageService is for MessageService.cpp. Keys has the validation and getActiveKey, Cipher the calls of
--   AES-GCM, Handler the steps of handleSendMessage; the other files prove.
-- - QueryService is for MessageQueryService.cpp; QueryService/Validation has its tests of a request.
-- - KeyService is for ServerOP.cpp, its three requests on keys and processV2Request. It calls the others:
--   a request reads and writes the slots through Cache and the tables through KeyStore and
--   MessageStore, all in one state. `none` of seckeyAgree is a strcpy beyond an array.
-- - Packet is for MessageV2.proto and the structs of V2RequestCodec.h and V2RespondCodec.h.
-- - Codec is for V2RequestCodec.cpp and V2RespondCodec.cpp: initMessage of each struct, encodeMsg and
--   decodeMsg are init_request and init_response, encode_request and so on. Codec/Casts has the numbers
--   of the enumerators, and Codec/Fields what the packets hold of the structs.
-- - Transport is for TcpSocket.cpp, over a record of the system calls on sockets: sendMsg, recvMsg, readn
--   and writen are send_msg, recv_msg, readn and writen; connectToHost is in Transport/Connect. What is
--   relied on of the network is said in the records IsStream, IsOutlet, IsLive and SetsMode.
-- - Serving is for handleClientFd of ServerOP.cpp, from recvMsg through processV2Request to the close of
--   the connection. Serving/Pool is for startServer's use of ThreadPool.cpp: the marks, the queue and
--   the workers, and the turns that they take as a step relation; Serving/Accept is for the loop of
--   startServer that accepts connections, with fuel for those that wait.
-- - Client is for the client's ClientOP.cpp and MessageClient.cpp: Base has the request IDs and one exchange
--   over a TcpSocket, Keys the three operations on keys, Messages those of MessageClient, and Menu
--   the entries of the menu; the other files prove. It uses Cache, Codec and Transport, whose sources
--   the client holds as copies.
-- - Crypto is for AesGcmCrypto.cpp, over a record of the EVP calls: encrypt and decrypt; Crypto/Sealing has
--   what is relied on of them, IsGcm. The key is an argument. The services take the class as Outside does.
-- - Tests holds a MySQL server in memory, a pipe and a line that meet the hypotheses, and runs of the
--   theorems on them.
--
-- Numbers: an int of the code is an integer that does not wrap; the counters and keysn grow by one
-- for each request, far below the bound of an int. A byte on the wire is a number, and a length is cut
-- to 32 bits. Loops over lists are recursions over them; readn recurs on what is left to read; writen
-- has fuel, and the bytes of the frame with the signals that may interrupt it are enough. A handler
-- runs alone in its state; how the workers share one connection to MySQL is not modelled.
--
-- Not modelled: the set-up of epoll and the condition variable of the thread pool (system calls);
-- configuration, logs and what the client prints; the generated protobuf code, which is a parameter;
-- the other wrappers over OpenSSL (RsaCrypto.cpp, Hash.cpp, Base64Util.cpp, AesCrypto.cpp);
-- escapeSqlString, since a statement carries the values that its text denotes; and the code for Windows.
pub mod Prelude
pub mod Cache
pub mod Packet
pub mod Database
pub mod Outside
pub mod KeyStore
pub mod MessageStore
pub mod MessageService
pub mod QueryService
pub mod KeyService
pub mod Crypto
pub mod Serving
pub mod Client
pub mod Codec
pub mod Transport
pub mod Tests
