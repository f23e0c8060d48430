-- ===== src/Shell.antt =====
-- Tiny Shell/svijay_tsh.c: the job list (Jobs), the command line (Parse), the signal handlers
-- (Signals), the built-in commands (Builtins), `eval` (Eval) and `main` (Main), over the types of Defs.
mod Defs
pub use Defs.*
pub mod Jobs
pub mod Parse
pub mod Signals
pub mod Builtins
pub mod Eval
pub mod Main
pub mod Slots
pub mod Ends
pub mod Foreground
pub mod Lookup
pub mod Resume
pub mod OneForeground
pub mod Session
pub mod JobIds
pub mod ParseTotal
pub mod ParsePrint
pub mod Faults
mod Tests
