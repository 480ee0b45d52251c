-- ===== src/Kernel/Str/Tests.antt =====
-- The theorems at a memory that holds "log" at address 10.
use xv6_tp.Base.{◌≡◌, ◌==◌, if◌then◌else◌}
use xv6_tp.Kernel.Str.{Memory, memmove}
use xv6_tp.Kernel.Str.Moves.{moved, memmove-moved}

abbrev log_at : Memory
log_at a = if a == 10 then 108 else if a == 11 then 111 else if a == 12 then 103 else 0

memmove-moved_example : memmove 11 10 3 log_at 12 ≡ moved 11 10 3 log_at 12
memmove-moved_example = memmove-moved 11 10 3 log_at 12
