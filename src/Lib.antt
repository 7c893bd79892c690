-- ===== src/Lib.antt =====
-- Verification of WhiteNoise, an overlay network in Go in which clients talk over circuits of relaying
-- nodes without showing who they are.
--
-- The program. A node runs one manager per protocol, each behind an actor. The relay manager
-- (protocol/relay) keeps the node's sessions: a session is one node's part of a circuit, with at most
-- two streams, and what comes in on one goes out on the other. The proxy manager (protocol/proxy)
-- registers clients and builds circuits for them: it finds a joint node, has the caller encrypt a
-- negotiation message for the destination, gossips it, and sends a probe to the joint node, which
-- reports success when the destination's probe meets it. The command manager (protocol/command) has a
-- relay node extend a session, and the ack manager (protocol/ack) brings answers back. Over a circuit
-- the two clients run a secure session (secure), whose records are framed by a length.
--
-- The files.
-- Prelude: lists, bytes and Boolean tests. SyncMap: sync.Map. Errors: Go's error values and panics.
-- Session: network/session/session.go; Session/Pairing: its laws.
-- Wire: the messages of internal/pb and the parameters for protobuf, SHA-256 and base58.
-- Relay: protocol/relay. State, Sending, Setup and Actor are manager.go and actor.go; Messages and
-- Inbound are relay.go and secure_conn.go; Buffer and Connection are connection.go.
-- Invariant and Runs are about every run of a node, Forwarding, Path, Delivery, Reception and Rendezvous
-- about a message's way through nodes.
-- Services: what the other managers ask of each other, as a log of effects and a small monad of steps.
-- Proxy: protocol/proxy. State has the maps, Gossip the two encryptions, Circuit is HandleNewCircuit,
-- Handler is ProxyStreamHandler and actor.go; Clients, Requests, Registry, Joint and
-- Negotiation have the laws.
-- Command: protocol/command; Command/Answers and Command/Expansion: the two ends of a command.
-- Search: the search for a node that HandleNewCircuit and handleGossipMsg share.
-- Gossip: network/gossip. Choice, Ending and Topic are about the choice of a relay node, the end of a
-- negotiation, and the way of a message through the topic.
-- Noise: network/noise. Exchange is a request and its ack, Circuits is about NewCircuit, Registration and
-- Peers are about RegisterProxy and GetMainnetPeers with the nodes that answer them.
-- Sdk: sdk/sdk.go; Dialling is about Dial and its loop.
-- Ack: protocol/ack.
-- Secure: secure/message.go is Payload, secure/rw.go is Framing, secure/handshake.go and session.go are
-- Handshake; Authentication, Agreement and Channel below it are about one side with any other side, two
-- honest sides, and the data after the handshake. Id: crypto/id.go.
-- Keys: the key types of crypto; Keys/Identity: their way to ids, peer ids and libp2p's keys.
-- Account: common/account; Persistence is about a node that starts again. Launch: main.go, the choice of
-- the account and the white list; Restart and WhiteList are about these.
-- Examples: concrete nodes, codecs and ciphers, and the theorems at them.
--
-- The correspondence. A Go struct is a record and a method a function on it, in the source's words. A
-- manager's state is passed on explicitly; what leaves the node (writes, closed streams, acks, requests
-- to other actors) is a log, newest first. What comes back (write errors, dialled streams, late answers,
-- acks) is a function of the log, so that it may differ each time. A panic is a value: the constructor
-- `panic` of Outcome, or `none` as the result of a step. While a goroutine of the relay manager waits,
-- the others change the state as a parameter says. Role numbers are 32-bit patterns that are only
-- compared; lengths are written with their wrap-around in Secure/Words, and an int that may be negative
-- or wrap is an integer or its bits (GetDHTPeers, Search). The event bus of a connection is taken at its
-- documentation: Publish runs the callbacks of the topic in the caller's goroutine, one after the other,
-- and each subscribed one once.
--
-- Fuel. Write's loop has the length of the data as fuel, since each round takes a byte; the search for a
-- joint node has the number of peers, the attempts RetryTimes, as the loops of the source do. Dial's
-- loop has the polls until the timer fires, and one. The reader of Secure/Framing/Delivery, which is no
-- code of the program, has twice the length and one.
--
-- Not modelled: the conversions of private keys to libp2p's, PEM and ECIES (crypto), which are calls of
-- libraries; the start of a node (network/host, network/node.go), stores, logs, the command line and the
-- chat program, which are glue; libp2p, protobuf, the actor library and the cryptography, which are
-- parameters; timing, beyond answers that may be late; a channel that is closed while it is used.
pub mod Prelude
pub mod SyncMap
pub mod Errors
pub mod Session
pub mod Wire
pub mod Relay
mod Examples
pub mod Secure
pub mod Id
pub mod Services
pub mod Search
pub mod Gossip
pub mod Keys
pub mod Launch
pub mod Account
pub mod Noise
pub mod Sdk
pub mod Ack
pub mod Command
pub mod Proxy
