-- ===== src/Reactor.antt =====
-- runner/src/reactor.rs: the requests of the API. A request takes the lock of the core more than
-- once and waits for the database in between, so it has the core at each of its locks as an
-- argument: what other requests and the launchers did meanwhile is in the later one.
pub mod Suspend
pub mod Work
pub mod Projects
pub mod Infos
pub mod Notifiers
pub mod Machines
