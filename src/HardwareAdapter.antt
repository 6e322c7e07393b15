-- ===== src/HardwareAdapter.antt =====
-- src/humaware_hardware/humaware_hardware_adapter_template: the output gate and the node around it.
pub mod Gate
pub mod Node
pub mod Release
pub mod History
mod Tests
