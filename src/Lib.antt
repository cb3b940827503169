-- ===== src/Lib.antt =====
-- TONpayment: a watch-only service, written in Go, that issues invoices, watches a TON address
-- through the toncenter API and confirms each payment once. It holds no keys.
--
-- The parts, and the files that model them:
--   internal/tonaddr/tonaddr.go   Tonaddr, Tonaddr/Crc: `Parse`, `Friendly`, `Raw`, `Normalize` and
--     `NormalizeOnNetwork` are parse, friendly, raw, normalize and normalize_on_network. Tonaddr/Typos
--     and Tonaddr/Crc/Detects are about what the checksum catches.
--   internal/store/store.go       Store/Invoices and Store/Contract: the invoice, and the interface
--     `Store` as a record over the state of an implementation, with IsStore, the laws that the
--     service relies on, up to how the store keeps an invoice and a time (Keeping).
--   internal/store/memory.go      Store/Memory: the methods by their names in snake case. A method
--     that writes takes and returns the maps and the disk; Store/Files holds what it uses of the
--     file system and of JSON, which are parameters.
--   internal/store/postgres.go    Store/Postgres: the methods over a database that is a parameter. A
--     statement is its syntax, assignments and conditions, with its arguments; Store/Postgres/Table
--     says what any such statement means, as PostgreSQL documents it, and how times and JSON are kept.
--     Store/Postgres/Unheard is about replies that are lost.
--   internal/wallet, internal/idgen   Wallet/Memo, Wallet/Mock, Wallet/Ton and Idgen. `Verify` of
--     the toncenter verifier is a function of the answer of the HTTP client, a parameter.
--   internal/service/service.go   Service: `CreateInvoice` is create, `CheckStatus` is check_status,
--     with settle and expire. They are programs (Service/Program): each command is one atomic call
--     of the store, the verifier, the webhook, the clock, the locks or the random source.
--     Service/Run runs one program alone; Service/Interleave interleaves any number of them, and
--     calls start at any time. Service/Setup holds the constructor and the setters. Service/Locks
--     holds `keyedLocks`, one access of the shared memory at a time.
--   internal/webhook/webhook.go   Webhook: the delivery with its retries, and in
--     Webhook/InFlight the goroutines of the deliveries.
--   internal/poller/poller.go     Poller: `New`, and one `tick` as a step relation; Poller/Loop: `Run`.
--   internal/httpx                Http: the handlers as programs of the service (Http/Handlers), behind
--     the middleware (Http/Middleware), the routes of `NewServer` (Http/Server) and the rate limiter
--     (Http/Limiter). `serve` takes a request, the reading of the clock and the limiter to a
--     program that responds, and the limiter behind it.
--   internal/money, internal/deeplink   Money and Deeplink: nano_to_ton_string, build and png.
--     Deeplink/Confirmed and Deeplink/Paid follow an invoice through service, link and verifier.
--   internal/config/config.go     Config: the configuration read from the environment.
--   cmd/server                    Startup: the gates of validate.go and the wiring of main.go;
--     Startup/Shutdown: the process that runs then, and its shutdown, as a step relation.
-- The service calls a store through the contract. Store/Memory/Refines and Store/Postgres/Refines relate
-- the two stores to it: the first keeps everything as it is; the second, taken with no reply of its
-- database lost, keeps times and metadata as its columns do. ClaimsOnce, in Store/Contract/Once, is
-- the part of the contract that the theorems on interleavings ask for. The settled invoice goes to
-- the webhook sender; the addresses of an invoice come from Tonaddr and are compared by it in the
-- verifier.
--
-- Base holds the shared notation, lists, texts, maps, integers and sorting. Golib models what the
-- code uses of Go's standard library: strings, strconv, hex, base64, query escaping and net, from their
-- documentation. A text is the list of its bytes. An int64 is an integer whose range is written out
-- where the code depends on it; a time is a number of nanoseconds since Go's zero time.
--
-- Bounds: the loops over lists, digits and attempts recurse on what they consume; trimming takes as
-- many rounds as the text has bytes, and printing as many as the number, which is enough since each
-- round shortens the text or divides the number by ten. The five attempts of creation and the five
-- of a delivery are the code's own.
--
-- Interleavings: a step is one command of one caller. The environment chooses the verdicts, the
-- clock and the random draws, and whether a caller stands in another process, whose locks are its own;
-- but a drawn id is not in use when its invoice is stored. In Startup/Shutdown a process is known by
-- its requests, its poller and its deliveries; a deadline may pass, and a request or a check that runs
-- may settle an invoice, at any time, so that its steps take in more than the runs of the program.
--
-- The limiter: the arithmetic of float64, which rounds, is a parameter with the law that it keeps the
-- order of numbers, as IEEE 754 rounding does.
--
-- Not modelled: TONToNano, which is floating point and which nothing calls; logging, recovery from
-- panics, redirects of paths that are not clean, and the timeouts of the HTTP server. Error texts are
-- constructors. The encoders of JSON and of QR codes are parameters.
pub mod Base
pub mod Golib
pub mod Tonaddr
pub mod Store
pub mod Idgen
pub mod Wallet
pub mod Service
pub mod Webhook
pub mod Config
pub mod Money
pub mod Deeplink
pub mod Http
pub mod Startup
pub mod Poller
