-- ===== src/MessageQueue.antt =====
-- ALSP/posix_msq.c, ALSP/posix_msg_sigev.c, ALSP/sysv_msg.c and ALSP/sysv_msg_regex.c: a sender that reads a
-- file by lines and puts each line into a message queue, and a receiver. The first two programs have the
-- same sender and `main` in Posix, and the last two the same receiver and `main` in Typed.
pub mod Posix
pub mod Typed
pub mod Lines
pub mod Last
pub mod Short
pub mod Number
mod Tests
