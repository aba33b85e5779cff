-- ===== src/Lib.antt =====
-- Yoru Speech: a dictation daemon. A client asks it over a socket to start and stop a recording; the
-- recorded audio is queued and transcribed by a worker thread, a live preview shows words while the
-- recording runs, and the transcript is published as an event.
--
-- The parts and where they are modelled:
-- - Common: texts as lists of bytes, Boolean tests, lists measured by native numbers.
-- - Core/Event: the events that the parts publish, one constructor for each type
--   (src/core/session_id.hpp, src/core/error_event.hpp, the events.hpp of each domain). A method that
--   publishes returns its events in order.
-- - Core/Bus and Core/Logger: EventBus of src/core/event_bus.hpp, over handlers whose effect is an
--   argument, and Logger of src/core/logger.cpp with what it has buffered and flushed.
-- - Speech: Transcript, TranscriptionRequest, TranscriptionResult and Model (src/domains/speech). The
--   speech backend is an argument of its clients.
-- - Speech/Repository: src/domains/speech/model_repository.cpp over Speech/Paths, which has what it uses
--   of std::filesystem::path. A `Scan` is what a directory iterator yields.
-- - Speech/Whisper: WhisperBackend of src/domains/speech/whisper_backend.cpp, with the contexts that
--   whisper.cpp answers and the calls made of it.
-- - Clipboard: WlClipboardAdapter and AutoClipboard of src/domains/clipboard. `Kernel` is what the
--   system calls and the clock answer to one copy; a write may never return.
-- - Audio/Device: CaptureDevice of src/domains/audio/capture_device.cpp: start, stop and the device
--   notification, with the calls they make to miniaudio. The hardware's answers are arguments.
-- - Audio/Recorder: RecordingManager of src/domains/audio/recording_manager.cpp.
-- - Session/Lifecycle: Session, SessionState, ServiceState and their tables (session.cpp and
--   service_state.cpp of src/domains/session); `can_change` is can_transition of service_state.cpp.
-- - Session/Queue: TranscriptionQueue of src/domains/session/transcription_queue.cpp. Each locked
--   section is one function; Worker puts the worker thread beside its owner as a transition system in
--   which a list of actions is any interleaving of the two; History records what became of the jobs.
-- - Session/Manager: SessionManager of src/domains/session/session_manager.cpp, over the recorder and
--   the queue. Where the worker can run inside a method (poll_completed between its two drains,
--   shutdown before join returns) its change of the queue is an argument. Steps lists the calls, the
--   audio thread's buffers, the device notifications and the worker's changes in any order.
-- - Session/Words, Session/Silence, Session/Live: the word functions, the silence detector and
--   LiveTranscriber of src/domains/session/live_transcriber.cpp. The float operations are a
--   parameter (`Floats`), with nothing assumed of their rounding; so are clock and backend.
-- - Config: Configuration, the TOML codec (src/domains/config/toml_codec.cpp) over a TOML library that
--   is a parameter (`TomlLibrary`, with `TomlLaws`, the documented behaviour of toml++ tables), and
--   ConfigurationManager (src/domains/config/configuration_manager.cpp) over a file and its temporary
--   file, with what the file system answers as arguments.
-- - Ipc/Server: IpcServer of src/domains/ipc/ipc_server.cpp: its clients' read buffers, the lines that
--   poll_once hands to a callback, and send_line. What poll, accept, read and write answer are
--   arguments; the callbacks may change all but the read buffers, as the class requires. Sockets has
--   start and stop call by call, with the descriptors and the socket file: a call of unlink or
--   close, whose answer the source does not look at, is taken to succeed.
-- - Ipc/Codec and Ipc/Dispatcher: src/domains/ipc/message_codec.cpp over a JSON library that is a
--   parameter (`JsonLibrary`), and handle_line of src/domains/ipc/command_dispatcher.cpp over the
--   session manager and the configuration manager. An encoder's `none` is an exception of dump. A
--   `Daemon` is the two managers, and a configuration that update publishes reaches the session
--   manager's handler within the command. Codec/Utf8 has the documented behaviour of dump: it throws
--   only for text that is not UTF-8.
-- - Ipc/Service: the callbacks of src/domains/ipc/ipc_service.cpp and the EventBridge of
--   src/domains/ipc/event_bridge.cpp over the dispatcher, with the calls of send_line that they make
--   and whether an exception of an encoder ends them, which nothing catches.
--
-- - App: src/app/main.cpp. Journal has what is logged for each event and load_configured_model; Program
--   puts the components on the event bus with the subscriptions of main and of the constructors,
--   Steps and Closing have the calls of the run loop and those after it, and Stages, Results and
--   Dictation follow one dictation through them. Loop runs them over the server, with the lines that
--   clients send it and the lines that it sends; Main is main from its first line to its end. The
--   clipboard adapter is an argument there, and its calls return. An exception of an encoder ends the
--   process: `terminated` is set, and no step changes the program any more. Events that a method
--   publishes are delivered when it returns: no handler changes the component that publishes, except
--   that a configuration reaches the session manager within the command.
--
-- Conventions. Session ids wrap at 2^64, and so do the products of durations and sample rates that
-- the source computes in std::size_t; counts of samples and words stay below that bound. Reading
-- an empty optional is `none`. The loop over the lines of a read buffer runs on fuel, the buffer's
-- length, which is enough since each turn takes at least the newline; the loop of send_line runs
-- on the list of write's answers, and ends if those that are not EINTR are as many as the bytes;
-- the loop that waits for the clipboard command runs on fuel, one turn more than its timeout has
-- poll intervals, which is enough if the clock moves on by the interval that each turn sleeps; all
-- other loops are structural. Each Examples module holds tests and runs at concrete inputs.
--
-- Not modelled: the signal handler of src/app/main.cpp, where the run loop ends with its list of turns,
-- and the output mutex of the logger.
pub mod Common
pub mod Config
pub mod Speech
pub mod Audio
pub mod Core
pub mod Session
pub mod Ipc
pub mod Clipboard
pub mod App
