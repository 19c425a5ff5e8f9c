-- ===== src/Lib.antt =====
-- Verification of the Go programs of mock-lab.
--
-- The repository is a set of demos around a recording proxy. Its Go programs are small services: an
-- app that calls a reference API and keeps tokens and orders in memory (languages/go), the reference
-- API (shared/server), a dashboard that relays calls to the app (shared/dashboard), the order service
-- of the tutorial with its traffic driver (tutorial/go), and the labs: SQL comments (labs/sqlcommenter),
-- a quote API that retries its pricing dependency (labs/loki), one that is slow at times and measures
-- itself (labs/prometheus), a catalog view over an inventory (labs/tempo), catalog statistics
-- (labs/pyroscope), and a copy of the app that is to be refactored (labs/ai-refactor). They meet over
-- HTTP and over databases alone, so that each is a component here. Where both sides of an HTTP call are
-- in the repository, the Fixture modules put one in the place of the other's network.
--
-- The files:
--   * Common: names of the library that all files share, and what Go's library gives the programs:
--     strings as lists of bytes (Text), maps as association lists (Dict, Counter), hexadecimal and
--     decimal text (Hex, Digits, Decimal, Integer, Float), percent encoding (Url), JSON documents (Json),
--     calls and responses (Http), shifts and masks (Bits), integers (Int).
--   * Stats: labs/pyroscope/internal/stats/stats.go (DeduplicateProjects, Build).
--   * Stats/Service: fetchAndBuild of labs/pyroscope/cmd/app/main.go and buildDataset of
--     labs/pyroscope/cmd/catalog/main.go; Stats/Dataset is what one makes of the other.
--   * Ids: the identifiers of languages/go/main.go (newULID, newSnowflake, newObjectID, newUUIDv7,
--     newXID, newKSUID, randID, the event id) and of shared/server/main.go (newOrderID).
--   * Demo: the handlers of languages/go/main.go and the state validTokens and orders. Demo/Routes: its
--     routes with trackEvent in front of them. Demo/Refactor: labs/ai-refactor/main.go.
--   * Env: proxyFromEnvAnyHost, durationFromEnv and the settings of main in languages/go/main.go, and
--     the copies of these helpers in labs/loki.
--   * Beacon: trackEvent of languages/go/main.go and the flows behind it.
--   * Reference: shared/server/main.go (categories, byMaturity, the routes of main in Reference/Routes,
--     and the files that exportStatic writes for the data).
--   * Relay: shared/dashboard/main.go (validate, allowed, slug, tokenOK, forward, relayHandler).
--   * Tag: labs/sqlcommenter/sqlcomment.go (traceFromRequest, sqlComment, parseCommentMode, tag).
--   * Shelf: labs/sqlcommenter/main.go (handle and the handlers, among them the transaction of
--     createOrder and the prepared statement of getProduct).
--   * Quote: labs/loki/internal/checkout/checkout.go (Handler, resolvePrice, fetchPrice).
--     Quote/Pricing: labs/loki/cmd/pricing/main.go, the dependency that it asks.
--   * Checkout: labs/prometheus/internal/checkout (Handler, fetchPrice, InstrumentRoute, statusRecorder)
--     and the route of labs/prometheus/cmd/app/main.go, with labs/prometheus/cmd/pricing/main.go.
--   * Tempo: labs/tempo/internal/catalog/catalog.go (NewService, Build, fetchInventory),
--     labs/tempo/cmd/app/main.go (decodeCatalogRequest, catalogHandler) and
--     labs/tempo/cmd/inventory/main.go (quantityFor).
--   * Shop: tutorial/go/upstream.go and handlers.go, over the interface Store of store.go.
--     Shop/Postgres: PGStore, the implementation of Store in store.go.
--   * Traffic: tutorial/go/cmd/traffic/main.go, the driver that sends requests to the service of Shop.
-- A definition has the name of the function that it translates, in lower case with underscores. A
-- child module holds the proofs that its name tells, and each component's Tests hold runs on concrete
-- input.
--
-- How the programs are modelled:
--   * A handler is a function of the request, of the state that it shares with other requests, and of
--     what its calls bring back; it gives the response and the new state. Handlers that lock a mutex
--     take the lock once for each access, so that requests act on the state one after the other.
--   * Where a later answer may depend on earlier calls (Beacon, Shelf, Shop, Quote, Tempo, Traffic), what
--     a call brings back is a function of the calls before it, and the calls are part of the result.
--   * Libraries that are not in the repository, the network, the database, the clock and the random
--     source are parameters. Of uuid.Parse, of strconv.ParseFloat and of the formatting of times only
--     the result is used, a float64 being a sign, a magnitude and a power of two (Common/Float); of the
--     store, a theorem says what it expects of it.
--   * A clock that is asked more than once, and a random source that is read more than once, give a value
--     for each time: `now k` of an App of Shop is the call behind k others of its request.
--   * The database of Shop/Postgres is a state that is committed and, while a transaction is open, a
--     state of the transaction; its operations are a parameter. The record IsPostgres states what the
--     statements of the code do to these states. Columns of 32 bits keep their wrap-around. The two
--     histograms of Checkout are the lists of what they have observed.
--   * Loops are recursions on the list or on the number of rounds that are left: four attempts in
--     resolvePrice, three in trackResilience, ten, sixteen and twenty-seven characters in the
--     identifiers. The decimal text of a number is written with fuel, one more than the number, which
--     is enough: every round divides by ten.
--   * A time is its count of nanoseconds since 1970. The 64-bit results of UnixMilli and Unix and
--     their narrower parts keep their wrap-around, and so does the product of a price and a quantity.
--     Counters and totals that stay small are natural numbers.
--   * Strings are bytes; case folding and white space are those of ASCII. A body is the JSON document
--     that it decodes to, if it does. The members of a document stand in the order in which they are
--     written; only those of the map that counts the maturity levels are not sorted. Log lines leave out
--     elapsed times.
--
-- Not modelled: the main functions but for their settings and routes, the schema and seed data of the
-- databases, the wait for a database and its start (labs/sqlcommenter, tutorial/db), the landing page
-- and the error page of the reference API, its routes over fixed data (outerspace.go), the counter of
-- processor time in labs/prometheus, the tracing and logging libraries behind spans and log lines, and
-- the commands that print times.
pub mod Common
pub mod Stats
pub mod Ids
pub mod Demo
pub mod Beacon
pub mod Relay
pub mod Tag
pub mod Quote
pub mod Tempo
pub mod Checkout
pub mod Env
pub mod Traffic
pub mod Shop
pub mod Shelf
pub mod Reference
