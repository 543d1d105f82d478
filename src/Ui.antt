-- ===== src/Ui.antt =====
-- libs/rMlib/include/UI: the widgets.
pub mod Constraints
pub mod Layout
pub mod Total
pub mod Wrap
pub mod WrapDraw
pub mod Flex
pub mod Shares
pub mod Cache
pub mod Remembered
pub mod Layouts
pub mod Updates
pub mod Unchanged
pub mod Updated
pub mod Draw
pub mod DrawnWidgets
pub mod Inside
pub mod Drawing
pub mod Gestures
pub mod Taps
pub mod Timers
pub mod Due
pub mod Requeue
pub mod Calls
mod Examples
