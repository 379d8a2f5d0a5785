-- ===== src/Lib.antt =====
-- The telephone booth: a rotary telephone that plays questions and messages from an operator and
-- records answers.
--
-- The program. A pure state machine (crates/booth-core) turns events of the hook, the dial, audio,
-- uploads and the power button into a next state and a list of effects; the runtime (crates/booth-
-- bin) delivers events and executes effects against the ports of crates/booth-hal, which
-- crates/booth-pi implements on a Raspberry Pi. The Pi adapters encode a recording as FLAC, mend
-- its frame headers before the upload, and check a remote audio URL before fetching it.
--
-- Base holds the shared names and the lemmas on lists, slices and bytes, with the tests on native
-- numbers.
--
-- Hal is crates/booth-hal/src/lib.rs: the ids, LED indications, audio references and operator
-- statuses that the state machine mentions.
--
-- Core is crates/booth-core/src/lib.rs. Types has State, Event, UploadOutcome and Effect; Led has
-- status_led_for; Decode has decode_digit; Inner has handle_inner, the match cut into groups of
-- arms that are tried in the source's order (a group gives none where no arm of it matches);
-- Handle has handle_available with its early returns (admit, accepting and pausing are its parts),
-- handle_with_call_availability, handle, and run, which feeds a history of events with the
-- admission decision of each moment. A state is moved in and out, so a step is a function. Outputs
-- says what the effects do to the LED, the operator's status and the two timers, as the comments
-- on Effect say. The other modules are named for what they prove. A u8 of pulses is a number that
-- saturates at 255, as the source's does; digits of events may be any number unless a theorem says
-- otherwise.
--
-- Flac is crates/booth-pi/src/flac_frame.rs. Bytes are numbers, which the theorems that need it
-- bound by 256. Crc builds both tables by the source's loops, of 256 entries and 8 bits, with
-- shifts that drop what leaves the register; Header parses a frame header; Rewrite has preflight,
-- rewrite_frame and the pass over the stream, where a slice that leaves the buffer is none. The
-- size of usize is a parameter, so the overflow check of the lengths is the source's. Layout cuts
-- a stream into its frames. Every loop goes over a list or counts down from a constant, so no fuel
-- is needed.
--
-- UrlPolicy is crates/booth-pi/src/url_policy.rs. Address has the tests on addresses, those of the
-- Rust standard library written out from its documentation; Policy has validate, over the record
-- UrlParser that stands for the crate url: its parse and three accessors.
--
-- Gpio is crates/booth-pi/src/gpio.rs, poll_edges. Debounce treats one reading of one input; Poll
-- is a tick of the loop over the four roles, with levels, the slot in which an undelivered button
-- edge waits, and the edges dropped. The clock, the physical levels and the answer of each
-- try_send are the input of a tick, so every behaviour of the channel is covered. Steps says what
-- a tick does to one debouncer. Times are numbers without a bound, and a difference of times stops
-- at 0 as Instant's does.
--
-- Telemetry is crates/booth-telemetry/src/lib.rs. Bus has RingBuffer and TelemetryBus, whose ids
-- wrap at 2 ^ 64; the type of events and the test for a status LED event are parameters.
-- Publishers has publish as its steps, the id, the lock of the retained record and the lock of the
-- ring, which those of several threads take in any order; for the retained record alone LatestLed
-- takes the arrivals in any order. The loop that evicts goes over the records.
--
-- Operator is what the runtime (crates/booth-bin/src/lib.rs) does to get an answer to the operator.
-- The trait OperatorClient of crates/booth-hal is a record of operations on a state of the outside
-- world, which may answer anything. Retry has retry_operator: the outside, the number of requests
-- and the trace of what is published, slept and reported are its state. Upload has
-- validate_upload_caps and upload_recording; Spool is crates/booth-bin/src/pending_uploads.rs, a
-- list of named entries with the claims on them; UploadTask is the arm of effect_task for an upload
-- with the two tasks it starts; Replay is a sweep of spawn_upload_replay. What the disk, the audio
-- source, the gate and the shutdown flag answer is input. A task that is aborted at the shutdown is
-- not modelled. Lawful says what is relied on of the operator; Examples has one that keeps it. The
-- retries count down from three, and a sweep goes over its entries, so no fuel is needed.
--
-- Installation is crates/booth-bin/src/installation.rs. Gate has InstallationGate with the fetch
-- generation, and the two shapes that the gated calls of ExhibitionOperator have; Steps puts the
-- reconciler's loop, the answers of gated calls and the passing of time in a sequence, in any
-- order. Instants are milliseconds; the revision and the generation wrap at 2 ^ 64. A lease that
-- runs out closes the gate to calls, but it is the next answer to a probe that changes the mode.
--
-- Runtime is the main loop of crates/booth-bin/src/lib.rs. Events has handle_event, which asks the
-- gate, steps the machine of Core and publishes; Loop has the start and the loop's turns. What the
-- gate answers at each moment is part of the input.
--
-- PowerButton is the power button's task of crates/booth-bin/src/lib.rs: Task goes once round its
-- loop for each input that polls it, at the instant the input gives, so that it may be polled late;
-- signals arrive in its channel in between. Instants are milliseconds.
--
-- EventSpool is crates/booth-bin/src/event_spool.rs. A file's name is what batch_sort_key reads in it,
-- the directory is the list of its files in the order of their keys, which is what the sorted scan
-- gives, and the order of texts is a parameter. Split
-- replaces an oversized file by chunks.
--
-- Sessions is what crates/booth-bin/src/observability.rs reads off the telemetry. Events has
-- TelemetryEvent of crates/booth-hal and the fields that an envelope takes from it; Tracker has
-- SessionTracker, to which the id of a new session is given; Heartbeat has the status that is
-- repeated to the operator. Chains and Runs put both behind the main loop of Runtime, Bracketed
-- behind any stream of records.
--
-- Forwarder is spawn_event_forwarder of the same file. Wire makes envelopes, Store has the buffer
-- with flush_once and the spills into the directory of EventSpool, Task the loop, a step for each
-- input, and its end. The operator's answers and the disk's are part of the input; where the answers
-- end before the flush does, the booth shuts down meanwhile. A spill runs to its end even then. The
-- flush goes over the answers and the spill over the chunks, so the only fuel is the length of a
-- batch, for its chunks.
--
-- Config is validate_config of crates/booth-bin/src/lib.rs: Types has the sections with the fields
-- that are validated, Validate the checks in the source's order. The tests on floating-point numbers
-- are parameters.
--
-- Storage is crates/booth-bin/src/file_storage.rs: Names encodes a key, as a list of code points,
-- for a file's name; Files has get, set and delete on a directory, with every way in which the disk
-- can refuse a write.
--
-- OperatorClient is crates/booth-pi/src/operator.rs: Transfer uploads a recording with its retries,
-- counted down from four attempts; Answers maps error answers; UploadUrl checks a presigned URL with
-- the parser of UrlPolicy. Responses, JSON fields and the parsers of addresses are parameters.
--
-- Not modelled: the asynchronous runtime, the timers and channels behind it, audio devices, HTTP
-- requests and servers, system calls, exporters and configuration files, since these are
-- input and output or belong to other libraries; and all log lines except the Log effects of the
-- state machine.

pub mod Base
pub mod Hal
pub mod Core
pub mod Flac
pub mod UrlPolicy
pub mod Telemetry
pub mod Gpio
pub mod Operator
pub mod Installation
pub mod Runtime
pub mod PowerButton
pub mod EventSpool
pub mod Sessions
pub mod Forwarder
pub mod Config
pub mod Storage
pub mod OperatorClient
