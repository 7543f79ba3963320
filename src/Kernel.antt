-- ===== src/Kernel.antt =====
-- kernel.c: the parts of the desktop that keep state of their own.
pub mod Cursor
pub mod Trail
pub mod Calculator
pub mod Arithmetic
pub mod Url
pub mod Link
pub mod Mouse
pub mod Desktop
pub mod Menu
pub mod Choice
pub mod Keys
pub mod Keypad
pub mod Browser
pub mod Page
pub mod Viewer
pub mod Operands
pub mod Tokens
pub mod Boot
pub mod Ports
mod Tests
mod WindowTests
