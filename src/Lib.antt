-- ===== src/Lib.antt =====
-- Safety Autonomy Core: the safety core of a mobile robot. A mode state machine says what the
-- robot may do, a supervisor escalates the events of its monitors into that machine, a task
-- executor runs the control tasks, and a configuration is loaded, migrated and validated before
-- anything starts. The speed controller and the trajectories keep to the limits of the
-- configuration, the trajectories also to the safety envelope of an obstacle. A ROS 2 node owns
-- a machine, a supervisor and the recovery of the sensors, and turns messages and timer ticks
-- into their operations; others evaluate the laser scans, watch the sensors, detect slipping wheels,
-- take commands from the keyboard and pass the commands of the navigation on to the drive. The
-- navigation's behavior tree asks the published state whether it is safe to move on.
--
-- Which file models what (paths from the repository's root):
--   Result, Time      include/safety_core/result.hpp, include/safety_core/common/time.hpp
--   Diag              include/safety_core/diag/diagnostic_transport.hpp, topics.hpp,
--                     health_beacon_publisher.hpp, logging_diagnostic_transport.hpp,
--                     src/diag/logging_diagnostic_transport.cpp
--   Ports             the interfaces behind pointers: the health monitor, the transport, the clocks
--   StateMachine      src/state_machine/state_machine.cpp, its operations as one thread runs them
--   StateMachine/Race the same code under any number of threads, one atomic step at a time
--   Supervisor        src/safety/safety_supervisor.cpp
--   Executor          include/safety_core/exec/task_executor.hpp, run_due in Executor/Due
--   Config            src/config/migration.cpp, validation.cpp, env_loader.cpp and
--                     src/system/context_factory.cpp (Config/Loading)
--   Envelope          include/safety_core/safety/safety_envelope.hpp
--   Pid               src/control/safety_pid.cpp; Pid/Forgotten follows sequences of its calls
--   Motion            src/motion/trajectory.cpp, the validator and the stopping profiles
--   Recovery          ros2/src/safety_core_ros/include/safety_core_ros/sensor_recovery_manager.hpp and
--                     speed_limit_controller.hpp (Recovery/SpeedLimit)
--   Node              ros2/src/safety_core_ros/src/safety_supervisor_node.cpp, the handlers as steps
--   Filters           src/filters/: the Kalman filter (Filters/Ekf), the alpha-beta and the
--                     complementary filter
--   DriveBridge       ros2/src/safety_core_ros/src/safety_drive_bridge_node.cpp
--   EnvelopeNode      ros2/src/safety_core_ros/src/safety_envelope_node.cpp
--   SlipDetector      ros2/src/safety_core_ros/src/slip_detector_node.cpp
--   Teleop            ros2/src/safety_core_ros/src/teleop_node.cpp
--   GpsAdapter        ros2/src/safety_core_ros/src/gps_covariance_adapter.cpp
--   Nav2              ros2/src/safety_core_nav2/src/is_safe_condition.cpp, and in Node/State the message
--                     of the supervisor node that it reads
--   Platform          include/safety_core/platform/: the manual clock and watchdog, the actuator, and in
--                     Platform/Seqlock the buffered sensors of one writer and one reader
--   SensorMonitor     ros2/src/safety_core_ros/src/sensor_monitor_node.cpp, the metrics in
--                     SensorMonitor/Metrics
--   Tests             each theorem of the list below applied to concrete states
--
-- How the code corresponds to the model. A class is a record of its fields, a method a function
-- from the record to the changed record, what it sent to the monitor and the transport
-- (`World`), and its `Result`. The name of a method is the name of its function. An object
-- behind a pointer that an operation only tests or calls is kept as whether the pointer is set.
-- The readings of the clocks during an operation are an argument. `double` is an interface
-- (`Common.Double`) whose comparisons and sums obey laws of IEEE 754 (`Common.Double.Laws`), and
-- `Common.Double.Micro` shows that the laws can hold. Unsigned words wrap modulo their size;
-- durations are integers, and the executor's tests keep its own sums in range.
--
-- Threads. The atomics of the mode machine are taken in one order of all their accesses. The buffered
-- sensors keep a plain object beside their counter: their accesses interleave in program order, or with
-- a store that overtakes the first `fetch_add` or a second load that overtakes the copies, as the memory
-- orders leave open. What the language says of the data race on that object is not modelled.
--
-- Fuel. The inner loop of `run_due` ends after as many rounds as the catch-up limit, which is
-- its fuel. The generators of stopping profiles end when their buffer is full. The
-- compare-and-swap loops take the number of spurious failures as an argument.
--
-- Not modelled: the text that the logging transport and the logging monitor write, the markers of the
-- envelope node, the application and the bridges that forward to ROS 2. rclcpp and the
-- messages are outside: a handler takes what it reads of a message and of the clock, and what a node
-- publishes is a result.
pub mod Common
pub mod Result
pub mod Time
pub mod Diag
pub mod Ports
pub mod StateMachine
pub mod Supervisor
pub mod Executor
pub mod Config
pub mod Tests
pub mod Envelope
pub mod Pid
pub mod Motion
pub mod Filters
pub mod Platform
pub mod DriveBridge
pub mod SensorMonitor
pub mod SlipDetector
pub mod Teleop
pub mod GpsAdapter
pub mod EnvelopeNode
pub mod Recovery
pub mod Node
pub mod Nav2
