-- ===== src/Lib.antt =====
-- ESP-MOSAICO-CLAW: the firmware of a pocket device with a screen, its user interface of built-in
-- Apps, voice input, and the services behind them. This library models the parts of it that decide
-- something: state machines, queues, catalogs and comparisons. Paths are from the repository's root.
--
-- Base holds what the modules share: Boolean tests, lists over the native numbers, esp_err_t, C strings
-- as lists of bytes, and pointers as options (none is NULL).
--
-- Display.Lease models components/display_service/src/display_present_lease.c, the lease by which the
-- user interface and an App hand the right to present frames to each other: the record Lease with its
-- generation tokens, and one function for each function of the file. Lease/ has its invariant, the
-- uniqueness of the token that validates, and the life of a token. Display.Service models the part of
-- components/display_service/src/display_service.c above the lease: acquisition, release, handoff with
-- its roll-back, and the recovery of the baseline. A producer is a record of its two operations over a
-- state of the outside world, and so is the presenter; whether the mutex was taken is an input.
--
-- Wechat models the binding of a WeChat account. Wechat.Queue is
-- components/mosaic_ui/apps/setup_center/setup_center_wechat_queue.c, the ring of 8 status events between
-- the service's task and the page; Queue/Refine refines it to a bounded log. Wechat.Flow is
-- components/mosaic_ui/common/wechat_binding_flow.c, the flow that the page shows: simulated by time
-- (begin_simulation, step) or driven by the reports of a backend (apply_status), which is a record of
-- functions over a state of its own.
--
-- Update.Version models components/update_check_service/update_check_version.c, the comparison of
-- versions; strtoul is taken as the C library documents it, for any ULONG_MAX of at least 32 bits.
-- Update.Download and Update.Check model components/update_check_service/update_check_service.c: the body
-- that arrives in chunks (http_append), the manifest in JSON (parse_manifest), the worker, and the calls of
-- the service with its four observers. What the HTTP client does is a Transfer, cJSON is the record CJson
-- of its functions, and Check.Reach interleaves the calls and the end of the worker in any order; one
-- step of the worker stands for its whole run, since its inputs do not change while it runs.
--
-- Http models components/http_server: Http.Paths the decoding of a query value and the paths of
-- http_server_utils.c, Http.Upload the upload handler of http_server_files_api.c, whose calls that change
-- a file are returned as operations and replayed on the bytes of the file.
--
-- Boot models components/mosaic_ui/common/mosaic_system_flow.c, which App the device starts with and how
-- the end of an App moves the boot stage on. The store of the stage is a parameter (Boot/Store says what
-- it keeps); without one the stage is in memory (Boot/Volatile).
--
-- Voice models components/mosaic_ui/common/ai_create_voice_session.c with the types of
-- ai_create_voice_port.c beside it: a worker task that starts and stops the speech recognition on the
-- commands of a queue. Each stretch under the session's lock is one function of Voice.Session, and
-- Voice.Session.System interleaves clients, worker and recognition in any order, one stretch at a
-- step; Session/Place says what each place of the worker implies, Session/Cancellation what is known
-- around a cancellation. The kernel's queue is the record CommandQueue; what the recognition returns is part of a step.
--
-- Music models components/mosaic_ui/apps/music/music_controller.c, the controller of the music App. The
-- player of music_audio.c is the record AudioOps; its calls without a player are those of the source. The
-- values of rand, the time and the outcome of the scan of the data partition are inputs.
--
-- Games.Breakout models components/mosaic_ui/apps/breakout/breakout_app.c: simulation, presenter and
-- events. The floating-point numbers are the record Floats of their operations, about which nothing is
-- assumed, and the retained scene is the state that the setters leave.
--
-- Catalog models components/mosaic_ui/common/mosaic_app_catalog.c: the lookups among the built-in Apps,
-- the check of the registry that the build generates, and the App that an event of the interface leads
-- to. The registry and the packages are parameters.
--
-- AiCreate models the conversation of the AI create App: components/mosaic_ui/common/ai_create_controller.c and
-- ai_create_session_history.c. Transcript has the messages, Tracks the eight slots of requests in flight,
-- Controller the state, and Events, Submit, Abort, Sessions, Voice, Dictation and Start the operations;
-- History loads a session from its JSON. Each stretch of an operation under the controller's lock is a
-- function, and Stretches runs any of them in any order, with arbitrary values for what an operation
-- carries from one stretch to the next. The gateway, the session manager, the history and the voice port
-- are functions or inputs, and the events of the port are those of Voice.Port. The calls that an operation
-- makes outside the lock are returned as effects.
--
-- Bounds and fuel. Machine integers that can wrap (the lease's generation, the revisions of events and of
-- the music controller, the numbers and generations of the AI create controller) wrap at 2 ^ 32 in the
-- model. Times and positions are natural numbers: the source has them in int64_t, whose bound no uptime
-- reaches. The sequence of the update check's snapshots wraps
-- as well. The one loop on fuel is the growth of the response (Update.Download.grow): with a maximum
-- below 2 ^ 31 its sums do not wrap, and the maximum and two more is enough (Download/Growth). The other
-- loops are recursion on a list or on a fixed count.
--
-- Not modelled: the journal of the AI create controller, the deletion of its sessions, the change of its
-- voice port and the table of its commands; drivers, boards, the network, the other routes of the HTTP
-- server, storage, the rendering runtime, the pages of the other Apps, the vendored QR code generator, and
-- the creation and deletion of tasks, queues and locks, which is resource handling. A call with NULL for
-- the object itself is modelled where a module's comment does not say otherwise.
pub mod Base
pub mod Display
pub mod Wechat
pub mod Update
pub mod Http
pub mod Boot
pub mod Voice
pub mod Music
pub mod Games
pub mod Catalog
pub mod AiCreate
