-- ===== src/Handler.antt =====
-- handler/: one function for each handler of a message.
pub mod Forward
pub mod Todo
pub mod Classroom
pub mod BuildHouse
pub mod Puzzle
pub mod Picture
pub mod Account
