-- ===== src/Cli.antt =====
-- src/main.rs: the arguments and what the commands make of them. clap, the url crate and the logging are arguments or
-- left out; clap's defaults are in its attributes.
pub mod Args
pub mod Commands
pub mod Press
pub mod Benchmark
pub mod Main
pub mod Samples
mod Runs
pub mod Resolve
