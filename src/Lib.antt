-- ===== src/Lib.antt =====
-- A model of the TypeScript side of the serial adapter: the channels to the Python bridge, the
-- algorithm blocks and their pipeline, and the decisions that the OpenClaw plugin takes on ports,
-- instructions, telemetry and diagnoses.
--
-- The program. The plugin (index.ts) starts the Python bridge (src/launcher.ts), which owns the
-- serial port, and talks to it over two TCP channels (src/tcp-client.ts): telemetry frames come in
-- on one, and commands go out and acknowledgements come in on the other. Tools of the plugin turn
-- an instruction into a row of commands, observe the telemetry that follows and judge it. The
-- package plugins/algorithm_blocks_ts runs each frame through blocks and keeps the last frames and
-- rolling statistics.
--
-- Which file models what:
--   Channel      the sockets and `formatConnectError` of src/tcp-client.ts
--   Telemetry    `TelemetryClient` of src/tcp-client.ts; Telemetry/Buffer has its theorems
--   Control      `ControlClient` of src/tcp-client.ts; Control/Log and Control/Invariant on the
--                promises of `waitForAck`, Control/Answers and Control/Interfaces on which answer
--                a command gets, Control/Failures on the error paths
--   Ring         the ring arrays of the blocks and the pipeline, and the loop of their summaries
--   Frame        types.ts and the numeric fields of plugins/algorithm_blocks_ts/src
--   Blocks       MovingAverage, Pid and Summarizer, of blocks/*.ts
--   Pipeline     `AlgorithmPipeline` of pipeline.ts; Pipeline/Stats its statistics, with theorems in
--                Pipeline/History, Pipeline/Windows and Pipeline/Automatic
--   Ports        `normalizePortInfo`, `scorePort` and `chooseBestSerialPort` of src/launcher.ts
--   Verify       `evaluateStopVerification` of index.ts and the readings that it uses
--   Intent       the reading of an instruction in index.ts
--   Commands     the commands of index.ts and the rows in which it sends them, over Control;
--                Commands/Motion and Commands/Sequences have the theorems
--   Semantic     `executeSemanticIntent` of index.ts
--   Observe      `collectTelemetryFrames` of index.ts, with Observe/Window on its loop
--   Summary      `summarizeTelemetryFrames` of index.ts; Summary/Keys and Summary/Detection have its
--                theorems
--   Runtime      the status and the diagnosis of the runtime in index.ts
--   Startup      what src/launcher.ts decides before it starts Python and of a start that failed
--   Launcher     `PythonLauncher` of src/launcher.ts: its processes, timers and handlers;
--                Launcher/Starting is `start`, and Settling, Later and Exits have the theorems
--   Session      the bridge session of index.ts: Session/Connect connects, Session/Ensure is
--                `ensureBridgeReady` and `serial_connect`, Session/Tools the tools that pause, yield
--                and resume; Coherent, Counters, Connecting, Channels and Tools/Arbitration have
--                the theorems
--   ControlPlane plugins/openclaw_ts_bridge/control_plane.js, with Chunks on its input
--   LlmCommands  plugins/openclaw_ts_bridge/llm_command_translator.js, with Rate on its limiter and
--                Translation on its commands
--   Prelude, Text, Json, Number are shared: tests, lists, strings, JSON values and numbers.
--
-- How state and operations correspond. A class is a record with its fields, and a method is a
-- function from the record to the record, with the value that it returns. A promise, a timer or a
-- socket callback is an event: `step` says what each event does to a client, and `run` applies a
-- list of events, in any order that they may come. A client keeps every socket that it has made,
-- because the handlers of an old socket still act on the client, and knows its `readline` interfaces
-- by number: one that a later one replaced stays open and delivers its lines too. A promise that
-- settles is an entry of a log, so that settling one twice would show.
--
-- The session uses the clients and launchers through the record `World` of what they do, which leaves
-- open what happens to them between two waits. Its field `meanwhile` says what other calls of the
-- plugin do to the variables of the session while one waits for a socket, a process or the listing of
-- ports: they drop the clients or put others in place, mark a session, or set the launcher. `await`
-- does that at each such wait. A theorem that holds only where no other call does anything takes
-- `IsAlone` (Session/Alone) as a hypothesis. The turns of the event loop in which a promise of the
-- plugin's own functions is handed on, with nothing waited for, are taken together with the wait
-- before them.
--
-- Numbers of JavaScript are a parameter (`Number`) with no laws assumed; a theorem that needs an
-- order, exact sums or the rounding of integers says so in its hypotheses, and Number/Natural is an
-- instance that has them.
-- Counts and limits, which the code rounds down and bounds from below, are natural numbers. Strings
-- are lists of UTF-16 code units; `JSON.parse`, `JSON.stringify`, `Number(s)` and the change of
-- letters to upper or lower case are parameters. A loop is structural recursion on the list or the
-- count that it goes through, with two exceptions, which have fuel: the digits of a number, where one
-- more than the number is given and each step leaves a smaller number; and the collecting of frames,
-- where 201 rounds are enough for 8000 ms in sleeps of 40.
--
-- Not modelled: the Python bridge (python/), the firmware, the scripts and tests; of src/launcher.ts
-- the files, the listing of ports and the command line of the process; of index.ts the registration
-- of the tools and the handlers that only put modelled parts together; of plugins/openclaw_ts_bridge
-- the bridge and the observers, which are yet to be added. What is left out otherwise is input and
-- output.
pub mod Blocks
pub mod Channel
pub mod Commands
pub mod Control
pub mod ControlPlane
pub mod Frame
pub mod Intent
pub mod Json
pub mod Launcher
pub mod LlmCommands
pub mod Number
pub mod Observe
pub mod Pipeline
pub mod Ports
pub mod Prelude
pub mod Ring
pub mod Runtime
pub mod Semantic
pub mod Session
pub mod Startup
pub mod Summary
pub mod Telemetry
pub mod Text
pub mod Verify
