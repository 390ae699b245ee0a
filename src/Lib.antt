-- ===== src/Lib.antt =====
-- Verification of paxos-arena's consensus core, ledger, tournaments and card game.
--
-- The program keeps a tournament server replicated. internal/paxos holds single-decree Paxos: the
-- ballot order, the rules of acceptors and the choice of a value, with an Acceptor and a Proposer.
-- internal/replog holds the Multi-Paxos log: a Node that is acceptor, learner, candidate and leader
-- at once, that a host drives by Step, Tick, Propose and ReadIndex, and that saves what it must not
-- forget to a Store before it answers. The log uses the rules of internal/paxos for every slot.
-- internal/tournament is the state machine that the log's commands are applied to in slot order: it
-- creates, enters, scores, closes and settles tournaments, and plays their rounds. internal/ledger is
-- its book of money movements, and internal/game the rules of the card game Ladder, by which it deals
-- a round, checks every move and scores it.
--
-- Files:
--   Prelude, Prelude/Tests, Prelude/Lists, Prelude/Votes, Prelude/Strings, Prelude/Growth,
--     Prelude/Signed: Boolean tests, lists, maps with number keys or string keys (a Go map), maps
--     whose values move along a relation, counting of votes, and the order of int64.
--   Paxos: internal/paxos/paxos.go. `choose_from` is the loop of Choose.
--   Paxos/Order, Paxos/Choice: the order of ballots and what Choose promises.
--   Paxos/Acceptor, Paxos/Acceptor/Laws: internal/paxos/acceptor.go. A method is a function from
--     the acceptor to the new acceptor and its results.
--   Paxos/Proposer: internal/paxos/proposer.go.
--   Paxos/System and its children: proposers and acceptors with a network. The network keeps every
--     message ever sent, and a step delivers any of them at any time, so messages are lost, repeated
--     and reordered. A restarted proposer starts from its zero value with a round it never used.
--   Replog/Message, Replog/Durable, Replog/State: message.go, store.go and the types of config.go
--     and node.go in internal/replog. `Core` is the part of Node that is saved, with its store.
--   Replog/Validity, Replog/Validity/Bounds: defaults and Validate of internal/replog/config.go.
--   Replog/Plumbing, Replog/Acceptor, Replog/Leader, Replog/Handle, Replog/Calls: the methods of
--     Node in internal/replog/node.go, the host's calls in Replog/Calls. A method that sends takes
--     `send` as an argument, since a message to the node itself is handled at once.
--   Replog/Machine and its children: the abstract acceptor and learner, its invariant, what never
--     goes back, and a restart from the store.
--   Replog/Refinement and its children: every handler and every call is a run of that machine.
--   Replog/Run, Replog/Run/Safety: runs of a node and what holds of them.
--   Ledger, Ledger/Book, Ledger/Check: internal/ledger/ledger.go, the double-entry book that the
--     tournaments post to. Money is an int64 as its residue modulo 2 ^ 64.
--   Ledger/Sums, Ledger/Index, Ledger/Laws, Ledger/Posts: sums of balances, the loop of Check, and
--     what a book and a Post call promise.
--   Ledger/Names: the names of accounts and posting keys.
--   Game, Game/Deck, Game/Rules: internal/game/game.go and rules.go. A board is a record of lists; a
--     move gives the board and the error.
--   Game/Cards, Game/Draws, Game/Shuffle, Game/Rounds, Game/Endings, Game/Names: counting cards, and
--     what a draw, the deal, a run of moves, the end of a round and the text of a card promise.
--   Tournament, Tournament/Compute, Tournament/Payouts: records of internal/tournament/tournament.go,
--     and bps, ComputePool, ComputeStandings and ComputePayouts of internal/tournament/compute.go.
--   Tournament/Money, Tournament/Rows, Tournament/Ranking, Tournament/Shares, Tournament/Outflow: what
--     pool, standings, payouts and the postings of a settlement promise.
--   Tournament/Shapes: the Validate functions and the canonical form of internal/tournament/codec.go.
--   Tournament/Commands, Tournament/State, Tournament/Events: commands and results, State and
--     playState, and the events and progress of internal/tournament/play_state.go. A Go pointer into a
--     map is a value that is put back under the key it was found with.
--   Tournament/Entries, Tournament/Rounds, Tournament/Closing: create, join, score, close and settle
--     of internal/tournament/state.go, and finishRound and closeRounds of play_state.go.
--   Tournament/Play, Tournament/Moves, Tournament/Claims: the play commands of play_state.go.
--   Tournament/Apply: Apply, execute, Skip, Replay and mix of state.go, Fingerprint and Encode of
--     codec.go. A handler is a function from the state to the new state and the result.
--   Tournament/Growth, Tournament/Quiet, Tournament/Entering, Tournament/Steps, Tournament/Settling,
--     Tournament/Playing, Tournament/Moving, Tournament/Runs, Tournament/History,
--     Tournament/Retries, Tournament/Stale: how each handler may change the state, and what follows
--     for every run of commands, for commands that are given again and for old sequence numbers.
--   Tournament/Reads, Tournament/Seen: HasEvents and firstAfter of play_state.go, and a scan of all
--     events to compare them with.
--   Tournament/Keys: posting keys by what they are for.
--   Paxos/Tests, Replog/Tests, Ledger/Tests, Game/Tests, Tournament/Tests, Tournament/Scenarios:
--     concrete runs.
--
-- Numbers are native naturals; uint64 arithmetic keeps its wrap-around (`u64`). Times are naturals.
-- A tick of a run needs room for one more round below 2 ^ 64. Bytes are numbers. The random source
-- is a parameter, a function of the number of draws so far and the bound. A Save call succeeds or
-- fails as a list of outcomes says, with its write made or lost.
--
-- `handle` recurs on fuel, since a node handles its messages to itself inline; `send` gives 4 and
-- `step` gives 5, and two more for each queued value, since each accepted proposal may take one
-- value off the queue. `stuck` marks a run that would need more; the rank of a message, in
-- Replog/Fuel and its children, is the fuel that it needs. `endless` marks the takeover of
-- becomeLeader whose top slot is 2 ^ 64 - 1: its loop passes over that slot to slot 0 and does not
-- end by its condition. The call does not return; runs in Replog/Run go on from such a node as from
-- any other.
--
-- In a configuration an int or a duration is its residue modulo 2 ^ 64, which Validate compares by
-- `signed_less`; after Validate none is negative, and the handlers read them as naturals.
--
-- In internal/tournament and internal/game an int or int64 is its residue modulo 2 ^ 64, compared
-- by `signed_less`. SHA-256 and JSON are parameters (`Host`). The stream of a seed is computed
-- from the digest. The loop of a draw ends only if the stream gives a value below its limit;
-- `Draws` assumes one below 2 ^ 31 again and again: its `wait` bounds how long that takes, and is
-- the fuel of a draw. The groups of ComputePayouts recur on fuel, the number of rows, since a
-- group has at least one row. ComputePayouts and bps divide amounts that are not negative, as
-- those of valid rules are. Detail texts of results are left out.
--
-- Not modelled: wire decoding, the write-ahead log's files, the derivation and the commitment of
-- seeds, which rest on HMAC and SHA-256, the readers that copy records and events out of the
-- tournament state, sessions, servers, transport, the simulator and the command-line programs, and
-- the Unity client.
pub mod Prelude
pub mod Paxos
pub mod Replog
pub mod Ledger
pub mod Game
pub mod Tournament
