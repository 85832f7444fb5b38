-- ===== src/Text.antt =====
-- Text handling of main.cpp and daemon.cpp: numbers, truth values, event names, and the command
-- language. A C string is the list of its bytes before the terminator.
pub mod Number
pub mod Event
pub mod Lexer
