-- ===== src/Lib.antt =====
-- The av3 flight computer: the C program that runs on the rocket, as a model with proofs.
--
-- The program is a set of modules that an event loop calls one at a time. `demux` (src/ethmux.c)
-- takes UDP packets from the listen port, tells them apart by the port of the sender, checks length
-- and sequence number, and hands them on. GPS bytes go to `cots_raw_in` (src/devices/gps.c), which
-- cuts them into frames; its messages go to the arming logic (src/arm.c) and to the filter
-- (src/filter.c). IMU samples go to the arming logic and to the state estimation (src/state.c),
-- whose estimates drive the roll control (src/rollcontrol.c); its angles go to the roll servo
-- (src/devices/rollservo.c). All of it is logged (src/logger.c). Which sender calls which receivers
-- is said in main.miml.
--
-- The files:
--   Message         the arguments that all message handlers share; a ROLLMessage
--   Packet          src/utilities/psas_packet.h, src/devices/rnh.h and mpl.h: the packed structures, as
--                   names and types of fields; Packet/Gps, Satellites and Messages have those of the
--                   GPS messages and the whole messages
--   NetAddrs        src/utilities/net_addrs.h: the ports; NetAddrs/Addresses has the socket addresses
--                   of src/utilities/net_addrs.c
--   Sockets         src/utilities/utils_sockets.c: opening sockets, and reading from them
--   Double          the C type double, as a parameter: operations and the facts that are used;
--                   Double/Whole shows with whole numbers that the facts can hold together
--   Command         the macro COMPARE_BUFFER_TO_CMD of src/arm.c and src/rollcontrol.c
--   Gps             src/devices/gps.c: chexxor, send_venus_messages, cots_raw_in
--   Ethmux          src/ethmux.c: is_expected_length, sequenced_receive, demux; Ethmux/Poll has the
--                   reading of a packet, ethmux_init and ethmux_final; Ethmux/Sequence and Accept
--                   are about one sender, Ethmux/Interleave about all of them
--   Arm             src/arm.c: all handlers; Arm/Lock is about the sensor lock
--   Time            src/utilities/utils_time.c: to_psas_time, from_psas_time, get_psas_time
--   Filter          src/filter.c: filter_receive
--   Logger          src/logger.c: flush_log, the two ensure functions, log_write_disk_only, log_write
--                   and the functions that call it; Logger/Start has logger_init, open_logfile and
--                   open_socket; Logger/Decode is a reader of the log
--   Rnh             src/devices/rnh.c: rnh_init, version_callback
--   Fins            src/rollcontrol.c: estimate_alpha and what it calls
--   RollControl     src/rollcontrol.c: the handlers and the PID controller
--   RollServo       src/devices/rollservo.c: rs_receive_adj
--   StateEstimate   src/state.c: state_init, state_receive_imu
--   Faults          a frame that several modules let through, from the GPS to the log
--   System          main.miml: the modules together, from a packet to the log and to the servo;
--                   System/Events has the init functions and the callbacks of the event loop
--                   System/Handlers and Runs are about one packet, Stream about many; Servo, Live
--                   and Orders about what moves the canards; Armed, Arming, Causes and Gates about
--                   what arms; Typed about the structures that handlers read; Logged, Measured and
--                   Kept about the log. Heard has what the packets of a run hold for the arming
--                   module, Inputs what they give to the roll control, Served what that puts on the
--                   wire to the servo board; Hears, Armament, Steered, SteeredCalls and Steering are
--                   about these modules in the whole program, Fixes, FixRuns and FrameLock about
--                   the GPS in it, Streamed and StreamedRuns about whole runs with the GPS,
--                   Frame about what the log leaves alone
--   Base            numbers, lists, options and bytes
-- The functions keep their names from the source.
--
-- State is passed explicitly: a module's static variables are a record, a handler is a function from
-- its arguments and the record to the new record and the list of the calls and writes that it makes.
-- A buffer with its fill count is the list of the bytes in use. `Option` is used where the source may
-- access memory out of bounds: `none` is such an access. Machine integers are natural numbers with
-- the wrap-around written out. The results of system calls are arguments.
--
-- Fuel: `venus_loop` runs on as much fuel as the buffer has bytes, and every round takes at least one
-- byte; `Gps.Loop` has the lemma that more fuel changes nothing. The reader of the log in
-- `Logger.Decode` takes one unit for each message. All other loops are structural.
--
-- The event loop is not in the repository (it is generated by a submodule). A run of the program is a
-- list of events, in any order: a packet that `demux` reads, a tick of the logger's timer, an answer
-- of the RocketNet hub. One is handled after the other, each at one time, `now`.
--
-- Not modelled: what the system calls do (their results are arguments), the messages on stderr, the
-- event loop itself, the test program in src/devices/gps.c that is compiled under TESTING only, and
-- the health monitor, which is another program. The loop over file names in
-- `open_logfile` takes the 1,000 rounds of the source as its fuel. The rounding of `double` is not
-- described: it is the parameter's, and so is what the option -Ofast of the Makefile lets the compiler
-- make of NaNs and infinities.
pub mod Base
pub mod Message
pub mod Packet
pub mod NetAddrs
pub mod Double
pub mod Command
pub mod Sockets
pub mod Rnh
pub mod Gps
pub mod Ethmux
pub mod Arm
pub mod Time
pub mod Filter
pub mod Logger
pub mod Fins
pub mod RollControl
pub mod RollServo
pub mod StateEstimate
pub mod Faults
pub mod System
mod Tests
