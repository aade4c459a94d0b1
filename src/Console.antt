-- ===== src/Console.antt =====
-- console/: what is printed to the terminal and to the log file, and the keys that are read.
pub mod Printer
pub mod Input
pub mod Windows
pub mod Numbers
