-- ===== src/Lib.antt =====
-- rM2-stuff-rocket: the launcher rocket, the keyboard of the terminal emulator yaft, the waveform
-- files of the display controller swtcon, rectangles, input devices and user interface of rMlib, the
-- messages of rm2fb, and the reads and writes of unistdpp.
--
-- Parts, and the files that model them:
--
-- - Launcher, for apps/rocket. Launcher/Apps is `App`, `AppRunInfo` and `AppManager::update` of
--   App.h and App.cpp; Launcher/State is `LauncherState` of Launcher.h with its operations from
--   Launcher.cpp; Launcher/ReadApps is `readApps`; Launcher/Events is every handler that `build` and
--   `init` install, with the condition under which its widget has the input: `handle` is one event.
--   An operation returns `none` where an assertion of App.cpp fails. A process is one field of its
--   `App`, an application is its path, and what the system answers during an event is a `World`.
--   Launcher/Drafts is `AppDescription::read` and `readAppFiles`, on the contents of the files, and
--   Launcher/DraftRoundTrip is what it reads of a file that is written for a description.
--   Launcher/Paths, Descriptions, Sorting, Merge and Processes carry the lemmas on lists of
--   applications, Launcher/Exclusive, Faultless, Always and Run the invariant, Lock the locked
--   device, Select the long press of the power key, ForkFails the failing `fork`.
-- - Yaft, for apps/yaft. Yaft/Layout is layout.h and layout.cpp, Yaft/Keymap is keymap.h and
--   keymap.cpp, with every entry of their tables; Yaft/KeyCodes is `getKeyCodeStr`; Yaft/Keyboard and
--   Yaft/Repeat are `KeyboardRenderObject` of keyboard.h and keyboard.cpp. Keys are indices, the hash
--   maps are functions, and where the code walks one the order of the walk is a parameter. Yaft/Screen is
--   `doDraw` of screen.cpp with `drawLine` as far as it changes the terminal, Yaft/Mouse its
--   `handleInput` and the grays of a cell; the terminal is the members that these read.
--   Yaft/Bytes, Tables, Modifiers, Slots, Lines and Presses carry the proofs.
-- - Swtcon, for libs/swtcon/Waveforms.cpp and fb.cpp. Swtcon/Barcode is `decodeBarcode`, Swtcon/Waveforms is
--   `getTablePtr`, `getTableAt` and `getTemperatureIdx`, on a file that is a function from offsets
--   to bytes; Swtcon/Tables is what `readWaveformTable` makes of a decoded table, Swtcon/Loading
--   its loop over the temperatures, `readInitTable` and the order in which `initWaveforms` calls
--   them. A table in memory is a function from indices to words. Swtcon/Decoder, Termination,
--   Temperature, Packing, Transitions, Filling, Partial, Ranges and Loads carry the proofs. Swtcon/PanBuffer is
--   `fillPanBuffer` of fb.cpp, on a buffer that is a function from lines and words, with `unblank`, `pan`
--   and `blank`, whose requests of the device succeed or fail as a parameter says; Swtcon/PanLines and
--   Power carry its proofs.
-- - Rmlib, for libs/rMlib. Rmlib/Geometry is the points and rectangles of include/MathUtil.h;
--   Rmlib/Update is `UpdateRegion` of include/UI/Util.h, with which the widgets say what to redraw;
--   Rmlib/Input is the `handleEvent` of the touch, pen and key devices of Input.cpp, from which
--   Rmlib/Devices and Rmlib/Frames run sequences of events, as `readEvents` does with the events
--   that libevdev gives; Rmlib/Line is `drawLine` of Canvas.cpp for a thickness of 1, on a canvas
--   that is a function from points to values. Rmlib/LineMoves, Bresenham and Drawing carry its
--   proofs. The transform of the device is a parameter, and the order in which a report
--   has its slots is the latest first, which the code leaves to an unordered set.
-- - Ui, for libs/rMlib/include/UI. Ui/Constraints is Util.h; Ui/Layout is `layout` with `doLayout` of
--   the widgets of Layout.h, Stack.h, Text.h, Image.h and Blank.h, on a tree of widgets; Ui/Wrap is
--   Wrap.h; Ui/Flex is `doLayout` of Flex.h, whose children are their factors and
--   layouts, and whose operations on floats are parameters; Ui/Timers is Timer.h and the timers of AppContext.h; Ui/Cache is `layout` of
--   RenderObject.h with the size that it remembers, on a tree of leaves, objects with one child and
--   stacks whose own `doLayout` is a function; Ui/Gestures is Gesture.h. An operation of the layout returns
--   `none` where an assertion fails. Ui/Draw is `doDraw` of the widgets of Layout.h and Stack.h, as the
--   rectangles that the tree of Ui/Layout is drawn in. Ui/Updates is `update` of these widgets, as far as it
--   marks a layout, on a tree that has what is read of the old and of the new widget. Ui/Total,
--   WrapDraw, Shares, Due, Requeue,
--   Calls, Remembered, Layouts, Taps, Unchanged, Updated, Inside, DrawnWidgets and Drawing
--   carry the proofs.
-- - Rm2fb, for libs/rm2fb. Rm2fb/Message is Message.h: what a client sends and the server receives,
--   through Unistdpp; Rm2fb/Updates is `doTCPUpdate` of Server.cpp, Rm2fb/Server its `handleMsg` and
--   the loop of `serverMain`. What the system answers in a round of the loop is a `Round`, a socket
--   that is closed answers EBADF, and the loop yields the calls of `doUpdate`, the answers on the
--   control socket, sent whether or not `sendto` succeeds, and the events for the input devices.
--   Rm2fb/Ioctl is IOCTL.cpp, Rm2fb/Hooks the calls of the C library that Client.cpp takes over, with what
--   they return when they are passed on as a parameter. Rm2fb/Touches is `sendTouch` and `sendButton` of
--   InputDevice.cpp. A `read` that never returns is an answer of the system, with which `recvMessage`
--   and the loop return nothing; a write that fails with EPIPE ends the server, by SIGPIPE.
--   Rm2fb/RoundTrip, Receiving, Forwarding and Serving carry the proofs; Rm2fb/Sending composes the
--   client and the server, which finds the messages whose `sendto` succeeds.
-- - Unistdpp, for libs/unistdpp. Unistdpp/WriteAll and Unistdpp/ReadAll are `FD::writeAll` and
--   `FD::readAll` of unistdpp.cpp; the system calls `write` and `read` are parameters.
--   Unistdpp/Pipes has two pipes that take and give a few bytes at a time.
-- - Base: texts, lists, integers and tests that the parts share.
--
-- Fuel and bounds. The inner loop of `getTableAt` has as much fuel as the run is long, each round
-- takes at least one element of it; the outer loop has the fuel that it is given, and the theorem on
-- its termination says how much is enough. `writeAll` and `readAll` need as many
-- rounds as they have bytes, and have that fuel in the messages. `checkTimers` has the fuel it is given;
-- enough is the time that its timers have left, when the clock is bounded while it runs.
-- The loops over temperatures count in a byte and have 256 rounds: one that has not ended then has all
-- its temperatures again, and never ends.
-- `drawLine` takes as many rounds as its longer axis has points. `doTCPUpdate` is
-- taken to compute its sizes without overflow. The two sides of each `|` with
-- which `readWaveformTable` packs have no common bit, so it is a sum.
-- Times are unbounded natural numbers of milliseconds, the countdowns are integers; no count of the
-- code that is modelled comes near the limit of its type, but for the sizes of `getTableAt`, which
-- are not bounded here.
--
-- Coordinates and sizes are exact: coordinates are integers, the sizes and insets of the layout natural
-- numbers, and `unbound` is the greatest `int`; that a sum of sizes goes past it is not modelled. The
-- factors of a flexible row are of any type, with the operations on floats as parameters; what is assumed of
-- these is that they are exact on whole numbers below 2^24, but for quotients, which are not rounded
-- up. An `int` of a message is the 32-bit word that stands for it.
--
-- Not modelled: painting other than thin lines, arithmetic on floats, and the memory of `needsLayout` within
-- a frame; `fork`, signals, images, the clock, the names of the files of a folder and the touched cell
-- of the keyboard, which are parameters; the pixels of a cell of the terminal, whose glyphs are
-- libYaft's, and its configuration, which another library parses; navigation of rMlib, and the
-- resynchronisation of a device; the update of `Positioned`, and of a stack that gets more children;
-- the start of the rm2fb server and of a client, and the hooks of xochitl; the other parts of libs/swtcon, which are threads that drive the
-- display, and of libs/unistdpp, which wrap system calls; apps/tilem; tools; and the vendored
-- libraries.
pub mod Base
pub mod Launcher
pub mod Rm2fb
pub mod Rmlib
pub mod Swtcon
pub mod Ui
pub mod Unistdpp
pub mod Yaft
