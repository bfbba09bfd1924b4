-- ===== src/Store.antt =====
-- What the processes share: Redis and Postgres, seen through the commands that the code sends.
pub mod Command
pub mod Program
pub mod View
pub mod Rows
pub mod Server
pub mod Runs
pub mod Triples
pub mod Ensures
pub mod System
pub mod Protocol
