-- ===== src/Lib.antt =====
-- A model of the core of datahandlinglibs: the buffers that hold the payloads of a detector link, and
-- the request handler that answers requests for windows of time with fragments of them.
--
-- Payloads come from a producer and are written to a latency buffer. A request asks for the frames
-- between two timestamps. A job of a thread pool searches the buffer and answers, or lets the request
-- wait until the data are there or its time is over. A cleanup drops the oldest payloads. Around these,
-- a module starts and stops the parts in order, a card reader configures emulators that send payloads, a
-- processor runs tasks on payloads in threads, and recorders copy payloads to files.
--
-- Paths without a folder of the repository's root are below include/datahandlinglibs.
--
-- Readout          ReadoutTypes.hpp. The payload type is a template
--                  parameter: a record of what the code asks of it, with the laws on its order.
--                  Readout/Order has ascending lists and the rank of a timestamp in one.
-- IterableQueue    models/IterableQueueModel.hpp and models/detail/IterableQueueModel.hxx. The state
--                  is Queue: size_, the slots (none is raw memory), readIndex_ and writeIndex_. write,
--                  read, pop_front, pop, is_empty, is_full, occupancy, front, back and flush are the
--                  methods. Holds relates a ring and the list in it. Iterator has begin, end, good and
--                  ++; an iterator is its index. Spsc interleaves a producer and a consumer. Config
--                  has free_memory, allocate_memory, prefill_task, conf and scrap.
-- BinarySearchQueue, FixedRateQueue
--                  lower_bound in models/detail/BinarySearchQueueModel.hxx and
--                  models/detail/FixedRateQueueModel.hxx.
-- FrameErrorRegistry
--                  FrameErrorRegistry.hpp. The map is an association list.
-- LatencyBuffer    concepts/LatencyBufferConcept.hpp: the interface of a buffer for the handler, with
--                  laws; LatencyBuffer/Ring fills it with the ring and its binary search.
-- RequestHandler   models/DefaultRequestHandlerModel.hpp, models/detail/DefaultRequestHandlerModel.hxx
--                  and concepts/RequestHandlerConcept.hpp. Pieces is get_fragment_pieces, Respond is
--                  data_request, Jobs is issue_request and check_waiting_requests, Cleanup is cleanup,
--                  and Exclusion is m_cleanup_requested with m_requests_running. Opmon is
--                  generate_opmon_data, and issue_request of models/EmptyFragmentRequestHandlerModel.hpp.
--                  Setup is conf, scrap, start and stop. Record is the command record, and ZeroCopy is the one of
--                  models/ZeroCopyRecordingRequestHandlerModel.hpp.
-- DataHandling     models/DataHandlingModel.hpp and models/detail/DataHandlingModel.hxx: process_item,
--                  consume_payload, dispatch_requests (Consume), run_timesync (Timesync), the deferred
--                  post-processing of run_consume (Deferred), init and conf (Setup), and scrap, start
--                  and stop, with the commands of
--                  RawDataHandlerBase.hpp (Lifecycle).
-- Utils            utils/BufferCopy.hpp, utils/ErrorBitGenerator.hpp, utils/RateLimiter.hpp.
-- FileIo           utils/BufferedFileWriter.hpp and utils/BufferedFileReader.hpp over a disk; Recorder is
--                  models/RecorderModel.hpp.
-- RawDataProcessor models/TaskRawDataProcessorModel.hpp.
-- Callbacks        DataMoveCallbackRegistry.hpp.
-- SkipList         models/SkipListLatencyBufferModel.hpp, models/DefaultSkipListRequestHandler.hpp.
-- SourceEmulator   models/SourceEmulatorModel.hpp, with Utils/FileSource for utils/FileSourceBuffer.hpp.
-- CardReader       FakeCardReaderBase.hpp, which makes and configures emulators.
-- DataSubscriber   models/DataSubscriberModel.hpp.
-- Tests            concrete inputs.
--
-- Numbers are natural numbers with the wrap of the C++ types written out: add32 and sub32 for unsigned
-- int, add64, sub64 and mul64 for uint64_t. occupancy is in int, over integers. A counter of type
-- atomic<int> is its 32 bits. Where the code reads through a null pointer, reads a raw slot or fails
-- an assertion, a definition gives none.
--
-- bisect has the size of the ring as fuel: each round narrows the range by one at least. collect has
-- the occupancy and one more, one step to a payload; destroy has the size of the ring; buffer_copy one
-- round more than there are bytes; visit, record_pass and process_window have what they are given, and
-- end with more than there are payloads; so do read_all with more than there are elements, remove_old
-- with the number of members, and drain with the number of items that wait.
--
-- A Queue is a ring whose calls are made one after the other. Spsc cuts write and read into steps, in
-- one sequence, which the acquire and release operations allow. A step that its thread is not at does
-- nothing, there and in Exclusion. The threads of the handler are a sequence of events: a job, a pass
-- over the waiting requests and a change of the buffer by others are one event each. The clock, the
-- float product m_pop_size_pct * occupancy() and what the allocators give are parameters. So are the
-- compressions and refusals of the system, the bytes that it takes and those that a stream sends on, and
-- the bytes of a payload (FileIo), folly's queues and skip list, the emulators of a card reader, and what
-- an emulator draws and does to a payload. The sender
-- is not modelled: what is handed to it counts as sent, also where send() throws and the code only
-- warns. Outside files the payload's bytes are not modelled: a piece is a payload or the index of a
-- frame in it.
--
-- Not modelled: the clock of the zero copy recording; the waits of the threads' loops; the monitoring of
-- the ring buffers; periodic_data_transmissions of the request handler, which sub-classes fill; the
-- helpers of tests, the messages and the logging.
pub mod Base
pub mod Readout
pub mod IterableQueue
pub mod BinarySearchQueue
pub mod FixedRateQueue
pub mod FrameErrorRegistry
pub mod LatencyBuffer
pub mod RequestHandler
pub mod DataHandling
pub mod Utils
pub mod FileIo
pub mod RawDataProcessor
pub mod Callbacks
pub mod SkipList
pub mod SourceEmulator
pub mod CardReader
pub mod DataSubscriber
pub mod Tests
