-- ===== src/Common/Errno.antt =====
-- na/include/lume/errno.h: the error numbers, as the negative results that report them.
use lume.Common.Maps.{ℤ, negsuc}

abbrev pub einval : ℤ
einval = negsuc 21

abbrev pub enomem : ℤ
enomem = negsuc 11

abbrev pub efault : ℤ
efault = negsuc 13
