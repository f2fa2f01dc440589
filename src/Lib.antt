-- ===== src/Lib.antt =====
-- prox5: a model of the proxy pool of this repository, and what holds of it.
--
-- An engine (defs.go, ProxyEngine) takes lines of text with proxies (list_management.go).
-- LoadSingleProxy first brings a line into a normal form (parse.go); the loaders of whole texts
-- take it as it is. A line becomes a proxy in a map, and its address goes on the queue Pending. A
-- job spawner takes proxies from Pending to the workers of a pool, whose size an auto scaler sets
-- (internal/scaler/scaler.go, scale_util.go); a worker checks the proxy over the network
-- (validator_engine.go) and puts it on the list of the protocol that it speaks. dispense.go hands
-- the proxies of these lists out, the dialer (mystery_dialer.go) dials through them, and daemons.go
-- puts the proxies of the map back on Pending.
--
-- Files:
-- - Base, Base/*: names of the library that are passed on, Boolean tests, lists over the native
--   numbers, sync.Pool as a list from which Get takes the item it likes, and Go's int64 as integers
--   that wrap around at each operation (add64, sub64).
-- - Text, Text/*: strings as lists of bytes, with the parts of package strings and strconv that the
--   program calls.
-- - Parse: filter, filterv6, isNumber and buildProxyString of parse.go, where an index out of range
--   is the value `panics`. Parse/Accepts, Parse/Ipv6 and Parse/Panics go through the formats.
-- - Scaler: the AutoScaler; ScaleAnts is `scale_ants`. Scaler/Modes is about one call and
--   Scaler/Bounds about a history of calls, as is Scaler/Upright, where SetMaxWorkers and the other
--   setters may come between them.
-- - Proxy: Proxy and its protocol (proxy.go, proto.go).
-- - Debug: the messages of debug.go, and the setters of the logger. A logger is the list of the
--   lines it was given. Debug/Printer has the default printer and the debug channel.
-- - Engine: the state. Its mutexes, atomics and timers become fields; a proxy is known by its
--   address in a heap, since the map, the lists and the callers share it. Engine/Options has
--   getters.go and setters.go (Options/Hooks: the middleware and the random choices;
--   Options/Workers is about SetMaxWorkers), Engine/Counters stats.go, Engine/Lists the proxy
--   lists, and Engine/Defaults the default options.
-- - Daemons: proxyMap and recycling (daemons.go).
-- - Load: list_management.go, with bufio.Scanner of Go's library written out as `scan`.
--   Load/Scanning is about the lines of a text. Load/Book is its specification, a set of endpoints
--   and a queue of endpoints, and Load/Forgetful what is left of that without the order of the
--   queue, a quotient.
-- - Dispense: getSocksStr, GetAnySOCKS and stillGood (dispense.go); Dispense/Strings has the
--   wrappers.
-- - Validate: prepHTTP, bakeHTTP, singleProxyCheck, Proxy.validate and tally (validator_engine.go).
--   Validate/Fresh is about the first validation of a proxy and Validate/Again about a later one.
--   Validate/Headers adds what prepHTTP, bakeHTTP and validate do with headerPool; it makes no
--   difference (Validate/Headers/Undressed).
-- - Conductor: Start, Pause, Resume and Close (conductor.go); Conductor/Connections has
--   CloseAllConns.
-- - Scale: scale (scale_util.go). Scale/Kept is about what a tick keeps, whatever of the scaler and
--   the pool that is, and Scale/Ticks about scaler and pool in step.
-- - Spawner: the loop of jobSpawner (daemons.go), one round at a time. What the pool answers to a
--   job at a time is `refusal`, where `some` is an error.
-- - Dialer: popSockAndLockIt and mysteryDialer (mystery_dialer.go), as rounds of their two loops;
--   Dialer/Entries has Dial, DialContext and DialTimeout, and Dialer/Kills the goroutine that
--   closes the connection of a dial, with whoever else takes the kills of CloseAllConns.
--   Dialer/Connects and Dialer/Exhausted are about a dial that gets through and one that gives up,
--   and Dialer/Killed about one after CloseAllConns. A middleware may answer with nil, and then the
--   dial panics.
-- - Clients: mr_worldwide.go. Server: StartSOCKS5Server (socks5_server.go); Server/Buffers has the
--   pool of buffers that the server copies with.
-- - Shim: the adapter of internal/randtls/shim.go, which no other package uses; Shim/Handshake has
--   the goroutine and the select of HandshakeContext as a step relation.
-- - Example: example/main.go, a window on an engine: init (Example/Started), the buttons
--   (Example/Pressed) and the text of the window (Example/Window).
-- - System: all of it together. A `Step` is one call, one round of a loop, one validation or a part
--   of one, or one part of a dial, by any goroutine; `Reach` is a history of steps; System/Sound
--   has the invariant `IsSound`, and the modules beside it show that each step keeps it. In
--   System/Histories, System/Pops and System/Dials a call of GetAnySOCKS and a dial are histories
--   of steps, with those of the others between their rounds; System/Strings, System/Anyone and
--   System/Dialed are about whole calls of getSocksStr and GetAnySOCKS and whole dials among them.
-- - Tests: the interfaces filled by small implementations, and runs.
--
-- What the program imports is an interface: Ants (the worker pool), Limiter (Rate5), Plot (the
-- concurrent map), Network (dialing, HTTP and the random choice of an endpoint), Outside (the
-- middleware and the SOCKS client) and Addresses (address parsers). The laws that are relied on are
-- IsTunable for the pool and PlotLaws for the map.
--
-- A definition runs through a method, or through a round of its loop, as one step, also where the
-- source takes no lock or several atomic accesses: the test of a list's length and the removal of
-- its front in a round of getSocksStr, a pass of GetAnySOCKS over its lists, a tick of scale with
-- the call of ScaleAnts in it, and what follows GetAnySOCKS in popSockAndLockIt are one step each.
-- Between that test and the removal another caller of the source can empty the list, and then the
-- removal panics. The spawner and the dials of the source can also call scale at the same time. The
-- loops of dispense.go and mystery_dialer.go do not end by themselves: they run under a schedule, a
-- list with what the other goroutines do before each round and the time that the round reads; those
-- of the job spawner run at a list of times. The text scanner and the loops over lists are
-- structural. Printing a number uses fuel, one more than the number, and a number has fewer digits
-- than that.
--
-- In System a validation is one step, from the lock it takes on its proxy to its release, or its
-- parts are steps, with those of others between them. The protocol of a proxy is noted only where a
-- check of it on its endpoint succeeds (`Spoke`) on one of the networks that a history may meet
-- (`Internet`), which may answer as they like.
--
-- Not modelled: what the pool does with a job, the servers and connections behind the SOCKS5 server
-- and the dialer, TLS itself behind internal/randtls, the window of tview behind example/main.go,
-- the output of the loggers (logger), and the reset of the ticker in CloseAllConns. The file
-- mystery_resolver.go holds no code.
pub mod Base
pub mod Text
pub mod Parse
pub mod Scaler
pub mod Proxy
pub mod Debug
pub mod Engine
pub mod Example
pub mod Daemons
pub mod Load
pub mod Dispense
pub mod Validate
pub mod Conductor
pub mod Scale
pub mod System
pub mod Clients
pub mod Server
pub mod Shim
pub mod Tests
pub mod Dialer
pub mod Spawner
