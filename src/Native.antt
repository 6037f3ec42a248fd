-- ===== src/Native.antt =====
-- Code/Tools/Linux_Cgroup_Native.py: the parts that are not system calls. The read budget with the
-- bounded read loop, and the ownership of a file descriptor.
pub mod Errno
pub mod Budget
pub mod Reading
pub mod OwnedFd
mod Tests
