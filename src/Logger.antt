-- ===== src/Logger.antt =====
-- src/Logger: the stream that formats a log line, and the buffers between the threads that log and
-- the thread that writes the file.
pub mod LogBuffer
pub mod Convert
pub mod LogStream
pub mod LogFile
pub mod AsyncLogging
pub mod Line
