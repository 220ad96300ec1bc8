-- ===== src/Lib.antt =====
-- The core of the Pulsar C++ client library: what a producer does between `send` and the broker's
-- receipt, what a consumer asks for and keeps of the messages that it has to acknowledge, the connection that
-- carries both, and the data structures under them.
--
-- A message that is sent takes a permit of the producer's semaphore and memory of the client's
-- budget (Producer/Enqueue). It then joins a batch (Op, Producer/Batching) or becomes one operation
-- or several chunks (Producer/Send), which wait in the producer's queue until a receipt completes
-- them (Producer) or they fail together (Producer/Failing). Completing an operation gives its permits
-- and its memory back and calls the callbacks of its messages. Operations are written to the connection
-- one after the other (Writes) as frames (Commands); what comes back is cut into frames again (Frames) and
-- answers requests (Connection) or goes to a consumer, which gives the broker permits for more (Flow).
-- The modules and the code:
--
--   Semaphore       lib/Semaphore.cc: tryAcquire, acquire, release, close
--   MemoryLimit     lib/MemoryLimitController.cc: tryReserveMemory, reserveMemory, releaseMemory
--   Result          include/pulsar/Result.h and isResultRetryable of lib/ResultUtils.h
--   MessageId       lib/MessageId.cc with the builder and the chunk ids; Order for the operators,
--                   Codec for serialize and deserialize
--   BlockingQueue   lib/BlockingQueue.h and lib/UnboundedBlockingQueue.h
--   MapCache        lib/MapCache.h
--   Backoff         lib/Backoff.cc
--   TopicName       lib/TopicName.cc, lib/NamespaceName.cc, lib/NamedEntity.cc
--   Routing         lib/RoundRobinMessageRouter.cc, lib/SinglePartitionMessageRouter.cc and
--                   lib/JavaStringHash.cc
--   Op              lib/OpSendMsg.h, lib/MessageAndCallbackBatch.cc, lib/BatchMessageContainer.cc
--   KeyBatch        lib/BatchMessageKeyBasedContainer.cc; Order for the operations that it makes
--   Handler         lib/HandlerBase.cc, of which producers and consumers derive: start, grabCnx,
--                   handleDisconnection, scheduleReconnection, handleTimeout; Attempts for the attempts to get
--                   a connection, Progress for what keeps a handler from staying without one
--   Producer        lib/ProducerImpl.cc: sendMessage, ackReceived, removeCorruptMessage,
--                   resendMessages; Enqueue for canEnqueueRequest, Batching for batchMessageAndSend,
--                   flushAsync and the batch timer, Send for sendAsyncWithStatsUpdate, Failing for failPendingMessages
--                   and handleSendTimeout; Answers for whom the completions call, Receipts for what receipts
--                   do, Permits for the accounting of permits and memory
--
--   IdMap           std::map and std::set of message ids, in the order of `<`
--   UnAcked         lib/UnAckedMessageTrackerEnabled.cc: add, remove, removeMessagesTill,
--                   removeTopicMessage, clear, timeoutHandlerHelper; Valid, Removing and Tracking for the
--                   agreement of its map with its partitions, Ticks for when it redelivers
--   NegativeAcks    lib/NegativeAcksTracker.cc: add, handleTimer, close, setEnabledForTesting
--   AckGrouping     lib/AckGroupingTracker.cc and lib/AckGroupingTrackerEnabled.cc: addAcknowledge,
--                   addAcknowledgeList, addAcknowledgeCumulative, isDuplicate, flush, flushAndClean,
--                   doImmediateAck; Callbacks for where the callbacks go, Duplicates for isDuplicate
--   BitSet          lib/BitSet.h: set, clear, isEmpty, length; Words, Laws, Changes and Setting for its
--                   bits
--   BatchAck        lib/BatchMessageAcker.h; Coverage for when a batch is acknowledged
--   ConsumerAck     lib/ConsumerImpl.cc: acknowledgeAsync, acknowledgeCumulativeAsync,
--                   negativeAcknowledge, prepareIndividualAck, prepareCumulativeAck; Invariants for all
--                   the trackers of a consumer together, Batches for the messages of a batch
--   Chunks          lib/ConsumerImpl.cc: processMessageChunk with its cache; Assembly for the message that
--                   the chunks make
--   Flow            lib/ConsumerImpl.cc: increaseAvailablePermits, sendFlowPermitsToBroker, handleCreateConsumer,
--                   messageReceived, messageProcessed, receiving and the listener; Balance and Losses for
--                   where the permits are, Asking for what follows
--
--   SharedBuffer    lib/SharedBuffer.h: the buffer with its indexes; Cursor for reading, Writing and Patching
--                   for writing
--   Frames          lib/ClientConnection.cc: handleRead, processIncomingBuffer, verifyChecksum; Sent for the
--                   frames that a broker sends, Reading and Stream for a stream of them, Rounds for any bytes
--   Commands        lib/Commands.cc: writeMessageWithSize (Frame) and newSend (Send)
--   Connection      lib/ClientConnection.cc: the requests that wait for an answer, with their timeouts, and
--                   close; Incoming for handleIncomingCommand, Promises and Completion for the promises, Lookups
--                   for the number of lookups
--   Writes          lib/ClientConnection.cc: sendCommand, sendMessage, handleSend, sendPendingCommands,
--                   with asyncWrite of lib/ClientConnection.h
--
-- A word of a bit set is the function of its bits. The trackers belong to a consumer. What they ask
-- of it (redelivery) and of its connection (acknowledgements, with the callbacks that wait for the
-- responses) are logs in their records; the clock, the expiries of timers and the responses of the
-- broker are arguments or events. What a class that derives of HandlerBase does in connectionFailed is
-- a parameter, for a producer that of lib/ProducerImpl.cc, and so is uncompressing a message. The producer
-- has a container of one batch; KeyBatch stands by itself.
--
-- An object is a record of its fields, a method a function that returns the record afterwards; one
-- call is one critical section of the object's mutex. Where a thread waits on a condition variable
-- the calls of the other threads during each wait are an argument (a list of lists); the loops of
-- `acquire` and `reserveMemory` run once more than there are waits, and answer that they still wait
-- when the list is used up. The loop over the incoming bytes runs once more than its buffer has places,
-- which Frames/Rounds shows to be enough. The compare-and-swap loop of tryReserveMemory takes the usages that other
-- threads leave between its load and its exchange, and ends when that list does. No other loop needs
-- fuel: they are recursions on lists and on the number of chunks.
--
-- Numbers of 32 and 64 bits that can wrap are reduced modulo 2 ^ 32 and 2 ^ 64 where the code
-- computes them. Payloads are sizes (bytes where chunks are
-- assembled) and callbacks are numbers; the completions that the code would
-- call, and the sequence ids it would write to the connection, are logs in the producer. A
-- `unique_ptr` in the queue is an option, and a dereference of a null pointer is a result of its own.
-- The vector of message ids that the chunks of one message share lives on a small heap.
--
-- Compression, encryption, the sizes of protobuf messages, the protobuf wire format, curl's encoding,
-- boost's hash, the clock and random numbers are parameters. Left out are the making of connections
-- and of handlers, lookups, authentication, statistics, logging, interceptors, schemas, the C interface
-- and, of the consumer, subscribing, seeking, batch receiving, closing, and what one with a receiver queue of no
-- places asks for behind the start of its connection.
mod Prelude
pub mod Semaphore
pub mod SharedBuffer
pub mod MemoryLimit
pub mod Result
pub mod MessageId
pub mod BlockingQueue
pub mod MapCache
pub mod Backoff
pub mod TopicName
pub mod Op
pub mod Producer
pub mod Routing
pub mod IdMap
pub mod NegativeAcks
pub mod UnAcked
pub mod Writes
pub mod AckGrouping
pub mod BitSet
pub mod BatchAck
pub mod Commands
pub mod Connection
pub mod ConsumerAck
pub mod KeyBatch
pub mod Flow
pub mod Frames
pub mod Handler
pub mod Chunks
