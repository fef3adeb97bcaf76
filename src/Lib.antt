-- ===== src/Lib.antt =====
-- KPL v3 runs experiments on peer-to-peer networks. A Controller keeps a fleet of Agents and runs
-- scenarios on them; an Agent starts Peers in containers and reports them by heartbeats; a Peer runs
-- libp2p and sends telemetry events, which its Agent queues and passes on to the Controller. This library
-- models the Controller's state and decisions, the data formats that the parts share, and the way of an
-- event from a Peer to the file of its run.
--
-- Model (internal/model/model.go): the records of Agents, Peers and heartbeats.
-- Fleet (internal/controller/state.go, agent_capacity.go and runner.go): `Fleet` is the part of `state`
--   that the lock guards. Register is registerAgent and markStaleAgents; Heartbeat is heartbeat, with
--   its loops over the reported nodes in Merge; Capacity is setAgentCapacity and what it calls;
--   Placement is the reservation of an Agent, the record of a created Peer and the stop of a Peer.
--   History runs any sequence of these, each of which the code runs under the lock. Index, Lifecycle,
--   Reports, Foreign, Limits, Choices and Reservations hold the proofs.
-- Publish (internal/controller/runner.go): the topics of a Peer (nodePublishTopics and its helpers) and
--   the cohorts of a publication (capturePublishCohort, matchingNodes, readyCount).
-- Jobs (internal/controller/jobs.go): the table of background jobs. A wait is a step relation: a job
--   ends, or the loop's select takes a channel that is ready, in any order. A timeout is the end of the
--   context, which may come at any time.
-- Topology (internal/controller/topology.go): networkEdgesAt, over the nodes that Fleet keeps.
-- EventBatch (internal/model/event_batch.go): MarshalEventBatchPrefix and ValidateEventSizes; the limits
--   of 10485760 bytes and 5000 events are arguments of the theorems.
-- Network (internal/distribution/distribution.go, internal/model/network.go): which distributions and
--   impairments are valid, and the sampling of a delay.
-- Scenario (internal/scenario/scenario.go): Validate and resolveNodeConfig. Phases use the
--   distributions of Network.
-- Experiments (internal/model/model.go, internal/controller/state.go): the record of a run, and
--   experimentBefore.
-- Sequences (internal/controller/run_metrics_window.go): the intervals of the numbers of a session.
-- Ingest (internal/controller/state.go, run_metrics.go, run_integrity.go): appendEvents and what it calls.
--   Defs is the identity of an event and what an accumulator remembers, Store the store and its
--   operations; Identity to Failures hold the proofs. What the disk does is a value (`Persisted`), and
--   the statistics of `observe` are an argument.
-- Telemetry (internal/peer/telemetry.go, clock.go): Queue is the sequence, the queue and the drops,
--   Measurement the calls of the producers, Consumer the loop of run, cut where a producer can come
--   between. History runs any sequence of calls and steps of the loop.
-- Forward (internal/agent/agent.go, run_drain.go): the queue of an Agent, its requests and its drain.
-- Spool (internal/agent/telemetry_spool.go): the files in which an Agent keeps the events that the
--   Controller has not acknowledged, and the references to them in memory. What the disk does is a value
--   again, and the hash of an event an argument; the JSON of a file gives back its events. Refs to Restart
--   hold the proofs.
-- Config (internal/model/config.go, gossipsub_config.go, score_config.go): Node is promoteLegacy and
--   WithDefaults, Params their part for the parameters of GossipSub, Overlay is Merge, with a case for each
--   field in place of reflection, Presets is BuiltInNodeConfig, for the name that Kind reads, Degrees the
--   part of Validate on the parameters. A record holds the fields that these functions read. Stable,
--   Exclusive, Mesh and BuiltIn hold the proofs.
-- Report (internal/agent/heartbeat.go): sendHeartbeatBatches. Complete and Sends hold the proofs.
-- Common: texts, maps, sorting, orders and integers. Tests: examples for the theorems.
--
-- An `int` is a signed integer without overflow: the counts of Peers stay far from its bounds. A
-- time is a number of nanoseconds, 0 the zero time. A map is an association list; where the code
-- ranges over a map, the model takes the list's order, and the theorems hold for every list. Every
-- loop is structural recursion, so there is no fuel; but sort.Search takes the length of the list as
-- fuel, which Sequences.Search shows to be enough. A `uint64` wraps around at 2 ^ 64. A float is an
-- argument, the record `Float` of the operations that are called, with the laws of IEEE 754 where a
-- theorem needs them. Arguments stand for the code of other packages as well: JSON encoding,
-- time.ParseDuration, strconv, the random source, the clock and the write of the settings file; and
-- for internal/model/config.go in Scenario. A select on channels and a map of jobs stand for
-- goroutines.
--
-- Not modelled: the policies of GossipSub and the rest of the validation of a configuration; HTTP,
-- files and containers; the metadata that recordCreatedNode makes is an argument; peer scores; the
-- analysis of results; the rest of the Peer and Agent processes; the draws of random distributions, of
-- which only the value drawn is an argument.
pub mod Common
pub mod Model
pub mod Fleet
pub mod Jobs
pub mod EventBatch
pub mod Network
pub mod Topology
pub mod Scenario
pub mod Publish
pub mod Experiments
pub mod Sequences
pub mod Ingest
pub mod Telemetry
pub mod Forward
pub mod Spool
pub mod Config
pub mod Report
pub mod Tests
