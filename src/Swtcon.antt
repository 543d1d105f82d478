-- ===== src/Swtcon.antt =====
-- libs/swtcon: the software timing controller of the display.
pub mod Barcode
pub mod PanBuffer
pub mod PanLines
pub mod Power
pub mod Waveforms
pub mod Decoder
pub mod Termination
pub mod Temperature
pub mod Tables
pub mod Packing
pub mod Transitions
pub mod Filling
pub mod Partial
pub mod Loading
pub mod Ranges
pub mod Loads
mod Examples
