-- ===== src/Ros.antt =====
-- What the nodes take from ROS 2 and from Python: clock times and durations, floating point
-- numbers, stamped velocity messages.
pub mod Float
pub mod Time
pub mod Twist
pub mod Diagnostics
pub mod Fixed
