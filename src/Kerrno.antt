-- ===== src/Kerrno.antt =====
-- The status codes of include/kerrno.h that the modelled functions return: `success` is 0 and each
-- other constructor is the negated code of that name.
pub data Status : Type 0 where
  success : Status
  enoent : Status
  enomem : Status
  einval : Status
  enospc : Status
  enotempty : Status
  eperm : Status
  enosys : Status
  efault : Status
  ebadf : Status
  emfile : Status
  enametoolong : Status
  eloop : Status
