-- ===== src/Lib.antt =====
-- Verification library of donut_server, a service that estimates the wavefront of a telescope's
-- exposures while the next one is taken. A front end (server.py) takes HTTP requests; each of its
-- flights owns one coordinator process (coordinator.py), which keeps prepared configurations and
-- computes jobs. A producer prepares a job, then pushes the exposures as one framed blob
-- (protocol.py). The reference catalogs of a pointing are read through refcat_store.py, and a
-- separate pool of processes draws the plots of finished jobs.
--
-- Where each part is modelled; paths are under python/lsst/ts/donut_server:
-- * Protocol, of protocol.py: pack_blob, parse_layout, unpack_blob, parse_header, build_framing,
--   split_parts. Bytes are lists of numbers; the UTF-8 codec is a parameter whose decoding inverts
--   its encoding of the text that it can encode. A big-endian field refuses a number that does not
--   fit, as struct.pack does. Exceptions are the values of Protocol.Error.
-- * PlotQueue, of the class in server.py: enqueue, _take, _record_error, and the branches of _drain
--   (handle, drop_drawing). PlotQueue.Schedule has the drain loops as steps between two awaits.
--   Its limits, 256 errors and 6 attempts, are the source's.
-- * Refcat, of refcat_store.py: _ensure_shards over the module's cache of 24 parents, and
--   RefCatStore.ensure and uncovered. A read of one parent is a parameter that may fail.
-- * Coordinator, of coordinator.py: override_key, _prepare_key, the calib caches, _build_entry,
--   _activate_entry, ensure_prepared and ensure_prepared_for_push. What changed before an exception
--   stays changed (Exec). build_task, the calib backends and the sky geometry, which call LSST
--   libraries throughout, are fields of the record Library, of which nothing is assumed. Logging
--   and elapsed times are left out.
-- * Flights, of FlightPool in server.py: _fail_jobs, select, _lru, route, for_push, flight_of,
--   queued and state, over the fields of Coord that they read. Times are ticks.
-- * Lifecycle, of Coord in server.py: _bring_up, _reprime, _note_prepared, _note_loss,
--   _start_restart, request_restart, _ensure_usable and send_command. What a child does is
--   an argument; a turn of the loop of _bring_up runs with no other coroutine in between, and
--   send_command with the exchange's outcome. The pid, the times and the pipe are left out.
-- * Requests, of server.py: check_auth, require_local, _required_str and _parse_overrides. Whether a
--   peer is on this machine and whether text is blank are parameters; a JSON object is its members.
-- * Serve, of coordinator.py: reconstruct_exposures, the guards and the inputs of
--   build_quantum_context, run_job, run_push, run_ingest, _summarize, _run_deferred with
--   _write_parquet, and the loop of coordinator_main. The codec of an exposure, the contents of
--   calibs and tables, the sky geometry of the pixels and the task are fields of the records
--   Science and Outside. The dimension records of a dataset, with the dates and the groups of the
--   exposures, and elapsed times are left out. A write of a file is the list of its actions.
-- * Trigger, of trigger.py: sensor_of, poll_once, wait_for_exposure, the request of run_notifier, and
--   the exit statuses of run_notifier and main. The directory and the clock, in ticks, are what each
--   turn of the loop reads.
-- * Endpoints, of server.py: prepare after its validation, submit, ingest, and push with
--   _receive_and_dispatch. What the coordinator answers is an argument. A handler runs whole, or,
--   in Endpoints.Interleaved, in the steps between its awaits; the routes of the jobs are those of
--   Flights; a ghost there has the key with which each job's prepare was answered. The text of an
--   error that a bad layout leaves, and the counts and times of use that note_used and note_exposure
--   keep of a flight, are left out.
-- * Daq, of daq.py: sw_paths and resolve_exposure_dir, which resolve a directory of corner-sensor files
--   from its headers, and the shared-memory encoder: build_parts_parallel, _fan_out, _encode_one
--   and encoded_blob, with what they take from client.py, RawSource, _check_known_filter and
--   build_raw_parts. What the LSST stack reads from a header and the file system are the record
--   Stack; the pool, the system and the assembly of a sensor are the record Bench. A block is its
--   size and its cells; the workers write their ranges in an order that Bench gives. warm_up,
--   load_raw, ingested_exposures, the size of the pool and elapsed times are left out. A
--   KeyboardInterrupt, which is no Exception, may come while the workers are waited for.
-- * Replay, of replay.py: read_emuimage, the substitution of the headers of a replayed exposure, with
--   the lines of its report as values, and resolve.
-- * Logs, of logtail.py: tail and job_slice, over the bytes of the log. The escapes of the text are
--   left out.
-- Prelude has the shared lists, dictionaries and tests, Bytes the byte strings, Exec the code that
-- changes state and raises, with its handlers in Exec.Handlers and the code that only raises in
-- Exec.Raise, and Examples runs of the theorems at concrete inputs.
--
-- Lifecycle.bring_up runs on fuel, one unit for each turn; twice the limit of attempts and two are
-- enough, since a child that a replay kills stops the replays. The other loops go over lists or count
-- down from a number of the header.
-- Not modelled: the status, result, page and admin handlers of server.py, the calib backends, the
-- plots and the task itself, which are calls of LSST libraries, the start and the end of processes,
-- the rest of client.py, which sends requests to the endpoints and prints their answers,
-- exposure_codec.py, which pickles exposures, and the scripts and the pages, which are input and
-- output around libraries.
pub mod Prelude
pub mod Bytes
pub mod Exec
pub mod Protocol
pub mod PlotQueue
pub mod Refcat
pub mod Coordinator
pub mod Flights
pub mod Lifecycle
pub mod Requests
pub mod Serve
pub mod Trigger
pub mod Endpoints
pub mod Logs
pub mod Daq
pub mod Replay
pub mod Examples
