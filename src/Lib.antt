-- ===== src/Lib.antt =====
-- Verification of lnd, the Lightning Network daemon, with colored coins.
--
-- The daemon holds payment channels with its peers. Peers exchange messages (lnwire), which the
-- channel state machine (lnwallet) answers with new commitments; each commitment can be revoked by
-- a hash out of a hash tree (elkrem), of which the other party keeps what it has received.
--
-- Prelude.antt and its children are the shared helpers: Boolean tests, lists with the native
-- numbers, and results with their errors. Bytes.antt writes and reads big-endian numbers.
--
-- elkrem/ (elkrem.go, serdes.go) is Elkrem.antt and its children. Nodes are records of height,
-- index and hash; the sender walks down the tree (descend), the receiver is its stack of nodes
-- (AddNext, AtIndex, UpTo, ToBytes, ElkremReceiverFromBytes). Hash heights bound every loop. The
-- hash of two shas is a parameter. Serdes.antt is the stack as bytes; Tree, Receiver, Lookup,
-- Agreement, Storage, RoundTrip and Persistence are proofs.
--
-- lnwire/ is Lnwire.antt (lnwire.go: writeElement and readElement by the kind of the element),
-- Lnwire/Scripts.antt (isValidPkScript), a file for each of the fourteen messages of the channel
-- protocol, Lnwire/Message.antt (message.go: makeEmptyMessage and the calls through the Message
-- interface), and Lnwire/Message/Framing.antt (WriteMessage, discardInput, ReadMessage). A stream
-- is the list of the bytes that are still to be read, so an unbounded read takes all of it; every
-- loop runs over a list or a count that was read, without fuel. Keys, signatures and the
-- variable-length byte strings of btcec and of btcd's wire package are the parameter WireLib, whose
-- laws say that they read back what they wrote. Lnwire/Elements.antt and
-- Lnwire/Message/Delivery.antt are proofs. The neighbor and routing table messages, which
-- encoding/gob codes, are the parameter Neighbors.
--
-- lnwallet/channel.go is Channel.antt and its children. Channel/Updates.antt has LightningChannel
-- as a record and the operations on its update logs (AddHTLC, ReceiveHTLC, SettleHTLC,
-- ReceiveHTLCSettle, compactLogs, restoreStateLogs), Channel/View.antt the evaluation of the logs
-- (fetchHTLCView, evaluateHTLCView, processAddEntry, processRemoveEntry), Channel/Chains.antt the
-- commitment chains (NewLightningChannel, fetchCommitmentView, SignNextCommitment,
-- ReceiveNewCommitment, PendingUpdates), and Channel/Revocations.antt their revocation
-- (RevokeCurrentCommitment, ExtendRevocationWindow, ReceiveRevocation), which
-- call the operations of Elkrem.antt and take the messages of lnwire. An operation returns its
-- result or error with the channel after it; a panic is the error nil_pointer. Amounts are bit
-- patterns of 64 bits, and sums wrap as int64 does. Entries that the source changes through
-- pointers are changed in the logs, which every operation returns; the maps beside the logs are
-- read off the logs. Channel/Delta.antt is toChannelDelta. The building and signing of
-- transactions, the derivation of keys and the database are the parameter ChannelLib. Run, Ledger, Soundness, RevokedSoundness,
-- Steps, Commitments and Settles are proofs.
--
-- channeldb/channel.go is Channeldb.antt and its children. Channeldb/Codec.antt has outpoints, HTLCs
-- and deltas as bytes, Channeldb/Columns.antt what the put functions write and where,
-- Channeldb/Fetch.antt the fetch functions with putOpenChannel and fetchOpenChannel,
-- Channeldb/Store.antt the transactions on the database (FullSync, UpdateCommitment,
-- AppendToRevocationLog, FindPreviousState, CloseChannel, and FetchOpenChannels of
-- channeldb/db.go), and Channeldb/Snapshot.antt the snapshot of a channel. Buckets of bolt, btcd's
-- transactions and varints are the parameter DbLib; a nested bucket is a field beside its parent's
-- values. A bolt transaction that fails leaves the store as it was, and a panic is an error of its
-- own. The loop over stored HTLCs has the number of bytes as its fuel, which is enough, since
-- every round reads a byte. CodecTrips, Puts, Reads, Holding, Recovery, Synced, Commitment, Log
-- and Closing are proofs.
--
-- htlcswitch.go is Switch.antt: the heap of links with chanIndex and interfaces, which share them,
-- the handlers of networkAdmin (handleRegisterLink, handleUnregisterLink, handleCloseLink,
-- handleLinkUpdate), and htlcForwarder on a payment and on a packet of the plex. The two goroutines
-- are rounds in any order. The goroutine that sends a packet shares the loop's variable, so the
-- link that it sends over is a function of the rounds that pass before it runs. The channel point
-- that the loop writes into the packet's message is left out. It takes the snapshot of
-- Channeldb/Snapshot.antt and the int64 arithmetic of Channel.antt. Switch/Senders.antt,
-- Forwarding.antt, Links.antt and Safety.antt are proofs.
--
-- channeldb/invoices.go is Channeldb/Invoices.antt, with time.Time and SHA-256 as the parameter
-- InvoiceLib; its children Lookups and Numbered are proofs. invoiceregistry.go is
-- InvoiceRegistry.antt, whose child Lookups is proofs.
--
-- chainntnfs/btcdnotify (btcd.go, confheap.go) is Btcdnotify.antt: the dispatcher on registrations,
-- connected blocks and spends, with the list of its items for container/heap. The loop of
-- notifyConfs has the number of the heap's other items as its fuel, which is enough, since every
-- round takes one off. Btcdnotify/Dispatch.antt, Included.antt and
-- Delivery.antt are proofs.
--
-- Not modelled: the wallet, its scripts and transactions, the
-- peers' goroutines, the RPC server, and the SPV node, which are input and output, calls of other
-- libraries, or concurrency around the parts above. Log output is left out everywhere.
pub mod Prelude
pub mod Bytes
pub mod Elkrem
pub mod Lnwire
pub mod Channel
pub mod Channeldb
pub mod Switch
pub mod InvoiceRegistry
pub mod Btcdnotify
