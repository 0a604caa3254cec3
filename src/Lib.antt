-- ===== src/Lib.antt =====
-- A model of the Binance quote services of this repository, and what is proved of it.
--
-- The receiver (cmd/QuoteRecvSerivce) subscribes to market data and sends each item on as a
-- core.Message. The aggregator (cmd/QuoteAggrService) sorts the items of each symbol into windows of
-- PERIOD milliseconds, closes a window DETACH_TIME after its end, and publishes what the windows of
-- all symbols hold as one PeriodMessage.
--
-- Quote.antt, Quote/Ids.antt: core/quote.go, core/transport.go: market data, envelope, ids.
-- Aggregation/Node, Put, Clock: cmd/QuoteAggrService/aggregation.go: the state of a symbol
--   (SymbolDef, PeriodNode), put_trade, put_inc and put_snapshot, and timeItr with detach. The other
--   files of Aggregation/ are proofs: Cases has the ways through each operation, Windows the abstract
--   machine of windows, History the sequences of calls, Content what the nodes hold, Drain the pending
--   lists, Copies and Duplicates the later copies of an item.
-- Marshal.antt: MarshallPb of aggregation.go and the messages of message/quote_period.pb.go.
-- Collector/Table, Round: cmd/QuoteAggrService/controller.go: onQuoteDataRecv and its handlers, and a
--   round of timedPeriodCollect. Lockstep, Published, Grid, Routes and History are proofs about them.
-- Generic/Dicts, Split: cmd/QuoteAggrService/generic.go: the helpers on slices and maps, and the two
--   ways to split a slice.
-- RateLimit/Manager: cmd/QuoteAggrService/ratelimit.go: the counters, UpdateRateLimitManager, a round
--   of Open and Consume. Budget, Orders and Update are proofs about them.
-- WsServer/Header, Access, Sessions, Data, Client: cmd/QuoteAggrService/wsserver.go: the frame, the
--   accounts, the table of clients, the queue of messages, and one client, whose loop, replay and
--   enqueue take turns: a run is any list of their actions. Stages, Loop, Stream and Replay are proofs
--   about the runs. Heartbeat: the loop with its timer.
-- Receiver/Events, Encode, Fanout: cmd/QuoteRecvSerivce/controller.go, market_snapshot.go, fanout.go:
--   from an event of the exchange to the frames on the sockets. Path is about the way from there
--   through market_drain.go of the aggregator into Collector/Table.
-- Market/Service, Plan: cmd/QuoteRecvSerivce/market_trade.go and its four siblings: a connection and
--   its timer, and the spreading of symbols over connections with Generic/Split.
-- Market/Queue: market_snapshot.go: the requests for snapshots, as steps of the goroutines in any order.
--   Served is the proof about its runs.
-- Symbols/Listed, Trading: cmd/QuoteAggrService/controller.go: a symbol of the exchange, updateExchangeInfo
--   and loadTradingSymbol. Filters: cmd/QuoteAggrService/config.go: NewTradingSymbol. Readable and Reading
--   are proofs about it, Loading about loadTradingSymbol.
-- Setup/Accounts, Aggregator, Receiver: init, initBinance and run of the two controllers, up to the loop of
--   run, with the accounts and the client of the exchange's API. The answers of the exchange, the sockets
--   and the clock are arguments. Start is the result of such a step: it succeeds, panics, or waits for
--   answers that do not come. Streams, Receiving and Aggregating are proofs; Aggregating composes the
--   start of the aggregator with the rounds of Collector. Leverage: cmd/QuoteRecvSerivce/leverage.go.
-- Spout/Producers: cmd/QuoteAggrService/market_spout.go, transport/zmq.go and transport/kafka2.go: the
--   producers and `send`. Delivery composes it with a round of Collector.
-- Account/Held, Timer: cmd/QuoteAggrService/controller.go and config.go: the symbols that are held, with
--   last trades and target positions, and Timer.
-- Monitor/Manager: core/qmon.go: the options, Init, and the two senders, whose steps take turns on one
--   socket in any order. Frames is the proof about the runs.
-- QuoteServer/Server: core/wsserver.go: the clients, the broadcast and the heartbeat, as rounds of its
--   loops in any order. Broadcast is the proof about the runs.
-- Instance/Lock: utils/env.go: ProcessOnce, and the file and its lock that the system keeps, with the calls
--   of the processes in any order. Steps, Owners, Content, Exclusion, Made and Unlock are proofs.
-- Text/StrVal: utils/string.go.
-- The Samples files run the model at concrete inputs.
--
-- How the code is read. An operation of the source is a function of the same name from the state to
-- the next one. The mutexes make each call of a symbol's methods one step, and a history is a list
-- of such steps in any order. A Go map that is only asked for keys is an association list; where the
-- source iterates over one, the list has the order of iteration, and `swap_at` reaches every order.
-- An int64 is the integer that it denotes: times in milliseconds do not come near its bounds. The sums of
-- the rate limiter, whose operands a caller chooses, wrap around (add_int64). An int that may be negative
-- is an integer, as the sizes of the pieces of a slice. The clock's readings are arguments, and so is
-- what a send on a socket answers. A text that is upper-cased is in ASCII (to_upper). A panic is the
-- value `none` or `panicked`. PERIOD and DETACH_TIME are arguments (Timing), as main.go sets them from a
-- file; floating-point numbers and strconv.ParseFloat are an interface (Floats), as are zlib and gob
-- (Wire, Encoders), the decimal package (Decimals), and JSON (Json, Formats). A loop over the answers of
-- the exchange is a recursion on their list, and gives `none` if they do not end it. Two definitions run
-- on fuel: the printing of a number, whose fuel is the number plus one, as it has fewer digits; and the
-- loop that splits a slice, whose fuel is the length plus one, as each round takes an element.
--
-- Not modelled: the Bloom filters and fields that nothing reads, sockets, files, Redis and logging; flags
-- and logs of main.go; the user stream, the queries of the account and the service messages of
-- controller.go, which nothing calls; the goroutines that write to a client of wsserver.go, in any order;
-- core/wsclient.go, which is a copy of a library.
mod Prelude
pub mod Quote
pub mod Aggregation
pub mod Marshal
pub mod Collector
pub mod Generic
pub mod RateLimit
pub mod WsServer
pub mod Receiver
pub mod Market
pub mod Symbols
pub mod Monitor
pub mod Setup
pub mod Spout
pub mod Text
pub mod Account
pub mod QuoteServer
pub mod Instance
