-- ===== src/Checks.antt =====
-- The theorems of the development at concrete inputs, and the data for them.
mod Samples
mod Table
mod Threads
mod Sets
mod Packets
mod Worlds
mod Text
mod Messages
mod Life
mod Setups
mod Joins
mod Travels
mod Trips
mod Meetings
mod Networks
