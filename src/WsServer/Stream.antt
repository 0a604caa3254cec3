-- ===== src/WsServer/Stream.antt =====
-- Which messages a client of wsserver.go is sent, and in which order the calls of send start, through every interleaving of its loop,
-- the replaying goroutine and the server.
