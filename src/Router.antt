-- ===== src/Router.antt =====
-- The message router of cip/cipmessagerouter.h and cipmessagerouter.cc: the requests and the responses
-- of explicit messages, and the dispatch to the services of the classes.
pub mod Response
pub mod Request
pub mod Notify
pub mod Dispatch
mod Tests
