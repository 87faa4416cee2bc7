-- ===== src/GameState.antt =====
-- esp32/shared/src/game_state.cpp: its file-scope variables are one record (`Defs`). Each function
-- there takes the mutex, changes the variables and gives the mutex back; in the children it is one
-- function from the record to the record, and the timer `esp_timer_get_time()` is an argument, in
-- microseconds.
pub mod Defs
pub mod Config
pub mod Runtime
pub mod Control
pub mod Roster
pub mod Texts
pub mod Ids
