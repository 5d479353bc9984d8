-- ===== src/Lib.antt =====
-- nft is a multi-node port forwarder. A panel (nft-server) keeps users, nodes, rules and their chains of
-- hops in tables, and sends each node its rules; a daemon on each node (nft-agent) merges them with the
-- node's own rules, resolves host names, splits them over two data planes (nftables in the kernel and a
-- relay in userspace), and reports the bytes of every rule, which the panel bills. This library models
-- that path, from the rule that a user edits to the byte that is billed.
--
-- How the parts interact. Rule is what travels from the panel to the node. Chain writes the hops of a
-- rule into the panel's tables, with the ports that Ports picks. Dispatch selects the hops of a node
-- and makes its rules. Daemon takes such a ruleset into the owners' segments, Owners merges the
-- segments, Partition splits the merged rules over the data planes, Shaping plans their rate limits,
-- and Relay brings the data planes to them, with the connections of Pool and Socks; Resolve gives the
-- rules their addresses before. Concurrent is Daemon with several calls at a time. Counters turns
-- readings of the data planes into samples, Telemetry carries them to the panel, Billing posts the
-- samples in the panel, and Cycle resets what they have added up. Exits keeps the exits that a user's
-- rules may end at, with what was used of each, and moves the rules with them. Login and Upgrade stand
-- beside this path: the panel's guard of its login, and what it shows of a node's upgrade. StateStore
-- keeps Daemon's owners over a restart.
--
-- Which file models what (paths from the repository's root):
--   Base: shared types and lemmas: Boolean tests on the native numbers, lists, results, types with a
--   decided equality, Go maps as association lists (Base/Assoc) and sums over them (Base/Sums), Go's signed
--   integers (Base/Int).
--   Net: what the program calls of Go's package net, a parameter of the model (`Net`).
--   Rule: internal/nft/nft.go (Rule, EffectiveMode, GroupShapeMark, Validate) and the host name tests of
--   internal/resolver/resolver.go. Rule/Validation and Rule/Marks hold the proofs.
--   Ports: ParsePortRange, PortInRange, PickFreePortFromRange, protoNamespaces and overlappingProtos of
--   internal/db/rules.go, and PickFreePort of internal/portutil/port.go; Ports/Atoi has what they use of
--   strings and strconv, over code points. Ports/Scan, Ports/Picking, Ports/Parsing and Ports/Namespaces
--   hold the proofs.
--   Chain: RegenerateRule of internal/db/rules.go with OccupiedPortsOnNode and EntryAddresses, and
--   EffectiveRelayHosts of internal/db/queries.go, as functions on the tables of Chain/Tables.
--   Chain/Clashes, Chain/Assigning, Chain/Resolving, Chain/Answering and Chain/Writing are the steps of
--   the proofs, Chain/Regenerating and Chain/Linking the results. Chain/Deleting has
--   DeleteRule, DeleteRulesUsingNode and DeleteRulesForUserNode.
--   Owners: MergedRuleset of internal/daemon/owners.go.
--   Daemon: reconcileOwners, refreshOnce and SetPanelRuleset of internal/daemon; Daemon/Local the changes
--   of the node's own rules and the three handlers for them. Daemon/Keys,
--   Daemon/Reconciling, Daemon/Deleting and Daemon/Creating hold the proofs.
--   Partition: Partition of internal/forward/partition.go.
--   Counters: counterSamples, foldCountersBeforeFlush and reAddCounters of internal/daemon/counters.go.
--   Billing: applyCounters of internal/server/hub.go; Billing/Tables its reads and its transaction,
--   Billing/Accounting and Billing/Posting the proofs on the ledgers.
--   Dispatch: buildRules of internal/server/server.go and ActiveRuleHopsForPush of internal/db/queries.go
--   (Dispatch/Pushing), which select the hops of a node and make its rules; Dispatch/Counting has
--   RuleHopMapByNode, by which the samples of the node find their hops again, and Dispatch/Exits
--   applyExitConstraints of internal/server/shared.go. Dispatch/Building,
--   Dispatch/Sorting, Dispatch/Claiming, Dispatch/Whole, Dispatch/Accepting and Dispatch/Finding hold the
--   proofs.
--   Cycle: the reset of a user's traffic in internal/db/traffic.go; Cycle/Zeroing and Cycle/Due the proofs.
--   Exits: internal/db/landing_exits.go, SyncUserLandingExits and AppendUserLandingExits on the table of
--   landing exits; Exits/Editing the changes of one exit and the enforcer of expiry, Exits/Moving
--   PropagateRepoExitChange. Exits/Syncing, Exits/Flipping and Exits/Ledgers are the steps of the proofs,
--   Exits/Materialized, Exits/Expiring, Exits/Moving/Totals, Exits/Moving/Carrying and
--   Exits/Moving/Links the results.
--   Telemetry: the counter frames of internal/daemon/dialer.go with the batches that wait for an ack;
--   Telemetry/Parking, Telemetry/Waiting and Telemetry/Books lead to Telemetry/Delivery.
--   Resolve: ResolveHostsOpts and pickResolvedIP of internal/nft/nft.go; Resolve/Picking,
--   Resolve/Families and Resolve/Settling the proofs, and Resolve/Outage a refresh of Daemon over it while
--   the resolver fails.
--   Shaping: planClasses and Apply of internal/tc/tc.go, and the marks of RenderRuleset of
--   internal/nft/nft.go; Shaping/Classes and Shaping/Planning the proofs.
--   StateStore: the state file of internal/daemon/state.go, the import of older files in
--   internal/daemon/migrate.go, and the first half of Bootstrap in internal/daemon/daemon.go;
--   StateStore/Saving and StateStore/Importing the proofs.
--   Login: internal/server/loginlimit.go; Login/Keys the machine of one key, Login/Pruning and
--   Login/Guessing the proofs.
--   Concurrent: calls of reconcileOwners that interleave, as a step relation. Concurrent/Alone,
--   Concurrent/Interleaving and Concurrent/Undoing hold the proofs.
--   Relay: userspaceBackend of internal/forward/userspace.go, and Relay/Planes the Dataplane of
--   internal/forward/dataplane.go. Relay/Opening, Relay/Updating, Relay/Reconciling, Relay/Failing and
--   Relay/Rollback hold the proofs.
--   Socks: dialViaSOCKS5 of internal/forward/socks_dial.go; Socks/Server the proxy's side of the protocol,
--   Socks/Exchange the proofs.
--   Pool: connPool of internal/forward/connpool.go, as a step relation; Pool/Owning the proofs.
--   Upgrade: internal/server/upgrade_status.go; Upgrade/Settling the proofs.
--   Tests: runs on concrete inputs, and each result at an input that meets its conditions.
--
-- Numbers and loops. Go's int fields that come from JSON are signed (ℤ); row identifiers, ports and byte
-- counts of the tables are natural numbers. No sum of byte counts is taken to reach 2 ^ 63. parseRuleID
-- keeps its value modulo 2 ^ 64. Every loop is structural recursion over its list; the loop of the port
-- pickers counts down from the size of the range, which is the bound of the loop in the source, so no fuel
-- is chosen. A random number is an argument, with the hypothesis that it lies below its bound.
--
-- Code outside the repository is a parameter: net.ParseIP and its relatives (`Net`), the join of host
-- and port and the label of a hop (`Env`), the resolver's answers, the data plane's and the file
-- system's success (`World`), the ports that can be bound and what nftables takes (`Machine`), the
-- join and the trimming of texts there (`Calls`), the parse of a target (`NetCalls`), what fmt prints
-- for tc (`Formats`), encoding/json and the file system under the state file (`Codec`, `Saves`,
-- `FileCalls`), and the database's success (`Database`). What the data plane runs after it did not
-- take some rules is a parameter of Daemon; Relay shows what that is.
--
-- What is not modelled: the WebSocket and HTTP transports, the texts of JSON, the web and terminal
-- interfaces, the installation of proxy cores and certificates, the relay's copying of bytes, the
-- running of nftables and tc commands, and the panel's queries that only read. But for Concurrent,
-- Pool and the guesses of Login/Guessing, the operations here run one after the other, each on the
-- whole state.
pub mod Base
pub mod Exits
pub mod Shaping
pub mod Resolve
pub mod Telemetry
pub mod Net
pub mod Rule
pub mod Partition
pub mod Owners
pub mod Ports
pub mod Chain
pub mod Billing
pub mod Daemon
pub mod Concurrent
pub mod Relay
pub mod Socks
pub mod StateStore
pub mod Upgrade
pub mod Pool
pub mod Login
pub mod Dispatch
pub mod Cycle
pub mod Counters
mod Tests
