-- ===== src/Reader.antt =====
-- Code/Tools/Linux_Cgroup_Reader.py: the parts that compute on texts and records.
pub mod Tokens
pub mod Stat
pub mod Mounts
pub mod Issues
pub mod Pidfd
pub mod Tests
