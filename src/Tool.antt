-- ===== src/Tool.antt =====
-- zerostash/src/: the command line tool. Argument parsing, loading of the configuration and output
-- belong to the abscissa framework.
pub mod Config
pub mod Application
pub mod Commands
pub mod Targets
