-- ===== src/Tests.antt =====
-- Concrete inputs: the properties at them, and runs of the code.
mod Disk
mod Pool
mod Blocks
mod Tables
mod Blank
mod Strings
mod Threads
mod Texts
mod Clients
mod Sessions
mod Servers
mod Shells
mod Insertion
mod Word
mod Streams
mod Maps
mod Trees
mod Stores
mod Keys
mod Nodes
mod Search
mod Get
