-- ===== src/Yaft.antt =====
-- apps/yaft: the terminal emulator's keyboard.
pub mod Layout
pub mod Keymap
pub mod KeyCodes
pub mod Keyboard
pub mod Repeat
pub mod Bytes
pub mod Tables
pub mod Modifiers
pub mod Slots
pub mod Screen
pub mod Lines
pub mod Mouse
pub mod Presses
mod Examples
