-- ===== src/Values.antt =====
-- Code/Tools/Linux_Cgroup_Values.py: what the parsers of cgroup-v2 resource files share. The
-- parsers are in the modules below, one for each file format.
pub mod Input
pub mod Resource
pub mod Cpuset
pub mod Counters
pub mod CgroupType
mod Tests
