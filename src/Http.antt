-- ===== src/Http.antt =====
-- network/http-common.cpp: the stream splitter and the request parser.
pub mod Text
pub mod Splitter
pub mod Split
pub mod Request
