-- ===== src/Lib.antt =====
-- PRISM watches the network of a plant: it captures packets, parses three industrial protocols,
-- puts the records into sliding windows, scores each window, and, when the risk is high, sends the
-- PLC a request that locks writes. PRISM_simulator holds the PLC and the clients of the plant.
--
-- How a packet flows through the monitor (PRISM/src/main.cpp, module Pipeline): Capture fills a
-- RawPacket, Parser.Classifier selects a parser by the ports, the parser makes a ParsedRecord,
-- Windowing buffers it and now and then emits a Window, Features makes eight numbers of it, Detection
-- two scores, Risk a probability and a decision, Enforcement acts on it, and Viz shows it.
--
--   Common       lists, bits, tests and the conditional; Common.Latch is the shared view of a flag
--                that some events set or clear, and Common.Partial that of a read that may fault
--   Packet       PRISM/include/prism.hpp
--   Capture      PRISM/src/capture/pcap.cpp: nextPacket is next_packet and decode_frame
--   Parser       PRISM/src/parser: parse of Parser.Modbus, Parser.Dnp3 and Parser.Iec104, and again in
--                Parser.Reads with each read of the payload checked; the flow table, which the loop of
--                main does not use, and in Parser.FlowTable.Abstract the map that it stands for
--   Windowing    PRISM/src/window/window_manager.cpp: addRecord is add_record, arm and emit
--   Features     PRISM/src/feature/feat_miner.cpp: compute, a helper for each of its loops
--   Detection    PRISM/src/detection/hst.cpp and burst.cpp
--   Risk         PRISM/src/risk/risk_model.cpp: evaluate, with switch for the hysteresis
--   Enforcement  PRISM/src/enforcement/enforcer.cpp: apply and send_safety_coil
--   Viz          PRISM/src/utils/viz_utils.cpp
--   Pipeline     PRISM/src/main.cpp: process is the body of the loops, drain and fallback the loops on
--                packets; Pipeline.Program is main from its arguments to its status, Pipeline.Names is
--                fcName, Pipeline.Report the lines that are logged about a packet, Pipeline.Source the
--                packets that the calls of nextPacket give the loop, and Pipeline.Stages the loop's
--                stages one after another, each on all that the stage before it made;
--                in Pipeline.Stages.Writes, Spread, Quiet and Short, what many writes, irregular gaps,
--                neither of them, and traffic of less than a window come to
--   Shutdown     the two threads of PRISM/src/main.cpp, main and sig_watcher, and the capture object
--                that they share, as a step relation
--   Logging      the logger of PRISM/include/prism.hpp; Logging.Unbuilt is that of
--                PRISM/src/utils/logger.cpp, which the build leaves out, and Logging.Lines the lines
--                of two threads that log at once
--   Alerting     PRISM/src/alert/alert_system.cpp, which main makes and does not use
--   Socket       what the programs ask of sockets, as outcomes and effects, and how much of what was
--                written the peer gets; which hosts and ports are asked for is left out
--   Simulator    PRISM_simulator/proto (modbus, dnp3, iec104) and PRISM_simulator/core/cli.cpp, with
--                Simulator.Program from the command line to the calls of the sockets
--   Legacy       PRISM/src/simulator, the older copy of the simulator, from its own text
--   System       the frames that pass between the monitor and the plant; System.Attack and
--                System.Flood, with Frames and Sustained below it, follow an attack to the lock
--   Double       the operations on double, and the laws of them that a theorem names
--   Tests        the theorems at concrete inputs
--
-- State is passed explicitly. Each stage that has state is a record or a flag, and an operation
-- returns the state it leaves beside its result. The members of a class keep their names. Time points
-- are counts of nanoseconds and unbounded, as is every size; bytes and 16-bit words are numbers with
-- their conversions written out, and the counts of the features are the 32 bits of an `int`, whose
-- overflow, which the language leaves undefined, wraps around. What is random or external is an argument: the results of system
-- calls, of libpcap, of inet_ntop and of std::stoi, the order in which a hash map is gone through,
-- and double with its operations. Double.Fixed, on which the examples are evaluated, meets all the
-- laws that are assumed of double. Every loop runs over a list, so that no fuel is needed: the
-- endless accept and poll loops run over the events they have met so far. In Shutdown either thread
-- may take the next step; a region under the lock of the capture is one step, and the count of the
-- inner loop is left out, so that a batch may end in any round.
--
-- Not modelled: the formatting of time and of numbers; PRISM/src/utils/types.cpp, which holds no
-- code; and the control API and the user interface of the simulator, which are not in C++.
pub mod Common
pub mod Packet
pub mod Parser
pub mod Socket
pub mod Simulator
pub mod Windowing
pub mod Double
pub mod Risk
pub mod Enforcement
pub mod Viz
pub mod Features
pub mod Detection
pub mod Capture
pub mod Pipeline
pub mod Legacy
pub mod Logging
pub mod Alerting
pub mod Shutdown
pub mod System
pub mod Tests
