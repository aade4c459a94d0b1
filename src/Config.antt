-- ===== src/Config.antt =====
-- jconf.hpp, jconf_p.hpp and jconf.cpp: the configuration file.
pub mod Values
pub mod File
pub mod Parse
