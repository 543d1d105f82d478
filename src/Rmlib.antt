-- ===== src/Rmlib.antt =====
-- libs/rMlib: the library of the user interface.
pub mod Geometry
pub mod Rects
pub mod Update
pub mod Input
pub mod Devices
pub mod Frames
pub mod Line
pub mod LineMoves
pub mod Bresenham
pub mod Drawing
mod Examples
