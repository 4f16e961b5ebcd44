-- ===== src/Lib.antt =====
-- The verification of rtbh-panel, a panel for remotely triggered blackhole (RTBH) routing: a server
-- keeps a blocklist and a whitelist of IP prefixes, has a BGP engine announce blackhole routes for what
-- the lists call for, and sends policy changes to an agent, which keeps a replica of the lists.
--
-- The parts, and how they interact:
--
--   - internal/policystore/store.go keeps the two lists, the expiries and the audit log, and their file
--     (PolicyStore). State has the store and what reads it, Disk the replacement of the file as a
--     sequence of steps that can each fail, Mutate the methods Add, Remove and AddUntil, Load Open with
--     its validation. A method takes the store with its file and returns both.
--   - internal/bgpengine/engine.go admits dynamic peers and hands routes to GoBGP (Engine). GoBGP is the
--     parameter Gobgp, and Running.Serving states what is expected of its calls. Lifecycle has New, Start,
--     Stop, Announce, Withdraw, Status and onPeerUpdate, Export the peer group and the export policy, with
--     GoBGP's evaluation of a policy as the parameter Evaluator.
--   - internal/runtime/policy.go computes the routes that the lists call for and brings the engine there,
--     with a roll-back (Controller). Routes is effectiveRoutes, Delta is applyDelta, Apply is applyLocked,
--     Service has Apply, ApplyBatch, Reconcile and the expiry, Removal and Expired what removing the expired
--     prefixes leaves. Interface is the engine as the controller
--     sees it, with its laws. The SQL store is the record SqlStore of its calls, which Sql.Store fills.
--     Go's maps are association lists, in whatever order they are gone through; the theorems hold of any
--     order.
--   - internal/runtime/adapter.go and parts of internal/runtime/backend.go apply a change to a store (Adapter).
--   - internal/agentrpc/session.go is the transport between server and agent (Rpc): a session has the
--     frames that will arrive and the messages that it has sent, and uint64 counters wrap at 2^64.
--   - internal/runtime/agent.go and cursor.go (Agent): consume receives, applies, saves the cursor and
--     acknowledges, and Run connects again, with delays. internal/runtime/queue.go (Queue) holds the
--     changes that wait for the agent.
--   - internal/runtime/config.go (Config): Settings has the configuration and its defaults, Environment,
--     Load and Checks read it from the environment and the flags, in this order, and validate it.
--   - internal/runtime/server.go (Server): Create is NewServer, Sync is handleSync over a session and the
--     queue, Exchange joins it to the agent's consume, Schedule has the feeds that are due. Run is Server.Run
--     over the engine of Engine.Lifecycle, with what the handlers and workers do in between as a list of
--     calls. Connections is acceptSync, as a relation of the steps that the accept loop, the handlers and
--     those who publish take in any order; its handlers share the queue, the cursor and its file.
--   - internal/sqlstore/store.go (Sql): the three tables are lists of rows, Tables has the effect of the
--     statements, with the key that the schema declares, and Sync the transactions SyncFeedPolicies and
--     DeleteFeed over a connection: the committed tables, and those of an open transaction, on which its
--     statements run until Commit or Rollback. Feeds and Policies have the other methods, Open the opening
--     and the schema. Which calls of the database fail is a parameter, the record Driver.
--   - internal/runtime/backend.go (Backend): Listing is ListPolicies, View has Config and ListFeeds, Feeds
--     has SaveFeed, DeleteFeed and SyncFeed over the SQL store and the controller, Managed DeleteFeed over
--     the feed manager, Imports ImportFeed, Direct the calls that need no controller and the adapter of
--     the agent.
--   - internal/feed (Feed): Parse and Expand for the text of feeds, Public for the addresses that a feed
--     may be fetched from, Fetch for the fetching, with URLs, name resolution and the HTTP client as
--     parameters, Manager and Open for the sources and their synchronization, Rounds for Manager.Run.
--   - internal/dashboard/http.go (Dashboard): Routing has the handler that a request comes to, the static
--     files and the decoding of bodies; the others have the requests that change the configuration,
--     policies or feeds.
--   - cmd/rtbh-server and cmd/rtbh-agent (Command): from the arguments to the run, over Config, Server
--     and the engine.
--
-- Net has the addresses and prefixes of net/netip as numbers with a prefix length: contains, masked and
-- overlap are computed on the numbers. Policy has the values that the parts exchange. Common has the
-- lists, association lists, tests and results that the parts share. Tests has each theorem at an input.
--
-- A time is a count of nanoseconds; the clock, the failures of the file system, and the texts of
-- prefixes are the record System. Locks are left out: each method is one step, except for SyncFeed,
-- which releases its lock and is modelled with the manager before and after. Fuel is given to consume,
-- whose loop has no end of its own (fuel beyond the number of frames is enough), to handleSync (a round
-- for each pending change and one more is enough), and to the loop over batches of 500 prefixes (the
-- number of prefixes is enough).
--
-- Not modelled: JSON, headers and the texts of HTTP, the tickers of RunExpiry and runFeedSync, and the web
-- interface. The parsing of the command line by Go's package flag is a parameter, and so are the
-- database's choice of an order and its LIKE.
pub mod Common
pub mod Net
pub mod Policy
pub mod PolicyStore
pub mod Engine
pub mod Command
pub mod Config
pub mod Adapter
pub mod Rpc
pub mod Agent
pub mod Queue
pub mod Server
pub mod Feed
pub mod Sql
pub mod Backend
pub mod Dashboard
pub mod Controller
pub mod Tests
