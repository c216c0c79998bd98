-- ===== src/Lib.antt =====
-- The connected-vehicle bench: a cloud backend, an in-vehicle telematics gateway and a Body ECU.
--
-- A client sends a remote command to the backend over HTTP. The backend (env/backend/app/main.py)
-- checks the key and the body, records the command as ACCEPTED, and forwards it to the gateway. The
-- gateway (env/ecu-gateway/gateway.py) queues it; its worker takes one command at a time off the
-- queue, calls the Body ECU by gRPC with a deadline, reports the result to the backend, and polls
-- the Body ECU. The Body ECU (env/body-ecu/server.py) owns the doors, the air conditioning, the
-- charger and the battery, and its physics loop moves cabin and battery once a second. The
-- gateway also polls on its own, supervises the Body ECU by heartbeats, and mirrors its state
-- into vehicle properties.
--
-- Files and code:
--   Base             numbers, lists, dicts, Python's integers and floats
--   Proto            the messages of env/proto/vehicle_ecu.proto
--   Body             `BodyModel` and the handlers of `BodyControlServicer`: each function has the
--                    handler's name; Body/Run puts them and `physics_loop` in any order;
--                    Body/Invariant, Handlers, Charge and Cabin are about them
--   Gateway/Types    the calibration and the fields of `class Gateway`
--   Gateway/Task     a coroutine that awaits calls; Gateway/Commands: `encode_hvac_temp`, `_grpc`
--                    and `cmd_*`; Gateway/Sync: `sync_once`, `heartbeat_loop`; Gateway/Worker:
--                    `handle_command`, `worker`, `handle_reset`; Gateway/Encoding, Calls, Queue,
--                    Mirror and Supervision are about them; Gateway/Fifo is a queue of request ids
--                    as a specification, and Gateway/Refinement is about the gateway as one;
--                    Gateway/Flight: the same operations between any two awaits of the tasks
--   Backend/Store    `Store` and the schemas; Backend/Commands: the command endpoints, `dispatch`
--                    in two halves around its request, `command_result`, `bench_reset`;
--                    Backend/Status: `vehicle_status` and `list_commands`; Backend/Access,
--                    Lifecycle, Records, Listing and Shown are about them
--   Adb              `checksum`, `pack` and the reading loop of env/ecu-gateway/adbd.py; Adb/Framing and
--                    Adb/Ending are about them. Adb/Connection: `Stream` and `dispatch`, with what the
--                    tasks of a connection do in any order; Adb/WellFormed, Flow, Sending and Delivery
--                    are about it. Adb/Sync: `read_exact` and what a session of the file service is;
--                    Adb/Services: what `serve` does with a service text, and Adb/Choice about it;
--                    Adb/Banner: the banner of `serve_adb`;
--                    Adb/Files: `serve_sync`; Adb/Reads, Transfer, PushPull, Refusal, Bounded and
--                    Served are about them
--   Bench            the three together with what the environment may do between them: calls that
--                    fail or miss their deadline, requests and posts that are lost, travels of the door
--                    actuator that outlive their call; Bench/Rounds and Doors are about it,
--                    Bench/Stuck, Foreign and Dropped about a command that is dropped, and
--                    Bench/Arrivals and Settled about what the backend keeps meanwhile;
--   Log              `DltLogger` of env/common/dltlog.py, whose calls take a number and write a line;
--                    Log/Counters and Log/Lines are about it
--   Robot            the log checks of starter/robot/libraries/gateway_log.py and log_validation.py;
--                    Robot/Heartbeats and Errors are about them
--   Runner           the client of env/scenario-runner/run_scenarios.py: `post`, `status`, `command`,
--                    `wait_terminal` and `reset` as programs over requests to the bench, between which
--                    the bench goes on by itself. Runner/Scenarios: the four scenarios and `main`;
--                    Runner/Reads, Waiting and Following are about `wait_terminal`, Halting and Ending
--                    about the end of `main`, Selection about `--only`, Posting and Stopping about a
--                    stop of charging, Validation about the contract checks, Resetting about
--                    `reset`, Reading and Prompt about a command that is served at once, Session and
--                    Preconditioning about the climate scenario, Cycles about the lock and unlock
--                    cycles; Bench/Answered, Climate, Quiet and Locked are about their commands on the
--                    bench
--   Tests            the theorems at concrete inputs, with the calibrations of the repository
--
-- Bounds. The sequence number wraps at 2 ^ 32 as in the code; an `int32` field of a message is
-- checked where the code builds the message, and raises. Other numbers are Python's integers. A
-- finite float is a whole number over a power of two; scaling by a calibrated power of two is exact.
-- What the floats of `_soc_acc` do is a parameter of the calibration, as the sum of the shares
-- `1.0 / period` depends on their rounding. Only these run on fuel: `rounds`, for which as many rounds as
-- commands are queued are enough, and the loops of the ADB server that read packets, requests, and
-- the frames of a file, for which one more than there are bytes is enough; and the loop of
-- `wait_terminal`, whose rounds take 250 ms or more. A connection opens fewer than 2 ^ 32 streams. The
-- operating system below the file service is a record of its calls, with a state of its own. The
-- scenario runner's clock is its own; what the bench does between two of its requests is any list
-- of events.
--
-- Not modelled: the shell sessions of the ADB server (env/ecu-gateway/adbd.py), which are processes;
-- which log and logcat lines the programs write; the noise loop; the
-- packet capture and the summary file of the scenario runner; the rest of the Robot libraries; infinities and NaN; JSON
-- bodies of other types than the backend sends; and the health endpoints. The floats, regular expressions and line breaks
-- that the Robot checks use are parameters, and so is what the logger takes from the clock. A round of
-- the worker on the bench runs to its end before the next event, and on it a post that the gateway
-- makes arrives or is lost; a reset of the bench is no event of it but an operation of the runner; the Body ECU's handlers are one
-- step each, as they hold its lock, but for the door actuator, whose travel may outlive its call.
pub mod Base
pub mod Proto
pub mod Body
pub mod Gateway
pub mod Backend
pub mod Adb
pub mod Bench
pub mod Log
pub mod Robot
pub mod Runner
pub mod Tests
