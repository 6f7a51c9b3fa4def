-- ===== src/Lib.antt =====
-- litearm is the host library of a robot arm that speaks a framed protocol over a serial line.
-- The reading thread takes bytes from the transport, cuts them into frames, and delivers each
-- frame: a status frame to the state, the reply of a Cartesian plan to the collector of plans,
-- everything else to the queue of its key. A caller clears the queues of its command, writes one
-- frame, and waits on those queues for the answer.
--
-- Protocol models include/litearm/protocol.hpp and src/protocol.cpp: Protocol/Crc the checksum,
-- Protocol/Frame pack_frame and unpack_frame, Protocol/Scalar the little-endian numbers and
-- floats of payloads, Protocol/Status decode_status, Protocol/Tables the command tables. Framing
-- models include/litearm/framing.hpp and src/framing.cpp: FrameReader is a record, and feed, tick
-- and reset are functions on it. Framing/Skips says byte by byte what a reader may skip. State
-- models include/litearm/state.hpp and src/state.cpp.
--
-- Errors models include/litearm/errors.hpp and src/errors.cpp: an exception is a value of
-- Failure, a function that may throw returns a Result, Errors/Table holds the two tables of error
-- codes, and Errors/Reason the functions on them. Messages are left out, but for the text of
-- err_reason.
--
-- Ack models include/litearm/ack.hpp and src/ack.cpp. Inbox is the state that the mutex guards;
-- deliver, drain_for and the rounds of reader_loop are functions on it. A map from keys to queues
-- is a function, since a missing key and an empty queue are read alike. Ack/Wait models wait and
-- expect: a list of Moment says what the waiter's clock shows at each reading and which events
-- the reading thread handles until the next one; when the list ends, the deadline has passed.
-- expect reads at most two answers, so that it needs no fuel; the loop of wait recurs on the list
-- of readings. guard_for_ack_wait of src/arm.cpp is a test of three fields of Session.
--
-- Log models LogReader and parse_samples of include/litearm/log.hpp and src/log.cpp. The link is
-- a parameter, which gives what expect brings for each query. The loop of iter_chunks runs on
-- fuel 2 ^ 32, which is enough because its offset is a 32-bit number that grows in each round.
-- Protocol/Version models FirmwareVersion and parse_firmware_version on texts as lists of bytes.
-- Params models JointParams and ModelParams of include/litearm/params.hpp,
-- include/litearm/model.hpp, src/params.cpp and src/model.cpp: a setter is the frame that it
-- sends, and a getter what it makes of the answer's payload.
--
-- Cart models the collector of include/litearm/cart.hpp and src/cart.cpp: a shared token is a
-- number, and the store maps it to what it points to; each call of CartPending is a function on
-- the record of its fields. cart_collector hands it to Ack as the Collector that deliver calls.
-- Cart/Wait models its wait: a list of Beat says what the waiter's clock shows and which calls
-- others make until the next reading. on_reply and clear_pending have a part under the lock and a
-- part that closes tokens after it; the calls are the two parts in a row, and Cart/Shared takes
-- the parts of all calls in any order, with a list of what is still due after a lock was
-- released.
--
-- Floats is the interface to double and float, which are the language's: conversion to a bit
-- pattern and back, with the laws that the proofs use. Machine integers are natural numbers with
-- the wrap-around written out; the count of credits of the collector is an int that stays far
-- below its limit and has none. Clock readings are natural numbers of ticks, and the rate of
-- recv_stats is a fraction.
--
-- Action is the monad of the session: an action takes the session and gives it back with a
-- result, also when it throws. Action/Preserves and Action/Yields hold the two kinds of statement
-- on actions and their rules: what an action preserves however it ends, and what holds after it
-- has returned.
--
-- Arm models Arm of include/litearm/arm.hpp and src/arm.cpp, and the parts of src/params.cpp and
-- src/cart.cpp that use a session. The record Arm holds the members of the class, the queues of
-- Ack with the collector of Cart, and four fields for what is around it: current_pid, sent (the
-- frames that were given to the transport), writes (what each write brings: what it throws, if
-- anything, and what arrives before the call goes on) and later (the readings of the clock that
-- are left, each with what the reading thread delivers after it). Times are milliseconds. Arm
-- itself has the guards and the exits of a frame; Arm/Status the reading of states, Arm/Safety
-- enable and the stops, Arm/Hover zero gravity, Arm/Connect connect and close, Arm/Move the joint
-- motions, Arm/Pose move_p, Arm/Tuning the feedforward and its saving, Arm/Device the licence,
-- inverse kinematics and enter_dfu, Arm/Cartesian the Cartesian entry points and Arm/Settle the
-- wait for the end of their motions.
--
-- Arm/Calls lists the calls as the data type Call and what may happen to a session as the data
-- type Step: a call, a call in a forked process, a round of the keep-alive thread, and connecting
-- with what the operating system answers. Its statements are on every list of steps.
-- std::terminate is the flag terminated, after which a list of steps does nothing more. The loops
-- of the session recur on the readings that are left, or on the number of attempts, joints or
-- points; when the readings end, the deadline has passed. The loops of move_p and wait_settled
-- have a bound on their rounds, the readings that are left at their start, which is enough since
-- each round reads the clock. The two readings of the clock in a round of arrive are one. Port
-- discovery, the opening of a port, the conversion of a pose and the judgement of nearness of
-- pose_near are arguments.
--
-- Not modelled: the start and the join of threads other than as flags, the serial port and its
-- discovery, get_ff_mask, the command line, the waits and the file output of the log, the boot
-- banner, rotations, diagnostics, and the simulated arm of the tests. Base holds what the modules
-- share: tests, lists over the native numbers, and laws of bits.
pub mod Base
pub mod Errors
pub mod Floats
pub mod Protocol
pub mod Framing
pub mod State
pub mod Ack
pub mod Cart
pub mod Log
pub mod Params
pub mod Action
pub mod Arm
