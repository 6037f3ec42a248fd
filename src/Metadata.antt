-- ===== src/Metadata.antt =====
-- Code/Tools/Linux_Cgroup_Metadata.py: the parsers of /proc/<pid>/cgroup and of mountinfo.
pub mod Input
pub mod Parsed
pub mod Membership
pub mod Escape
pub mod Mountinfo
mod Tests
