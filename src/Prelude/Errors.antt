-- ===== src/Prelude/Errors.antt =====
-- The error numbers of libraries/libc/include/errno.h and the values that a call returns.
use Prim.Native.Nat.{ℕ, ◌-◌, ◌^◌}
use mathlib.Core.Path.{◌≡◌, refl}
use mathlib.Core.Logic.{◌⊎◌, inl, inr}
use mathlib.Core.Bool.{Bool, true, false}

-- `NEWLAND_E…`
pub data Errno : Type 0 where
  enomem echild eexist enodev enametoolong eio einval einprogress : Errno
  eintr enosys eoverflow eisdir ebusy enoent emfile : Errno

unfoldable pub errno_code : Errno → ℕ
errno_code enomem = 1
errno_code echild = 2
errno_code eexist = 3
errno_code enodev = 4
errno_code enametoolong = 5
errno_code eio = 6
errno_code einval = 7
errno_code einprogress = 8
errno_code eintr = 9
errno_code enosys = 10
errno_code eoverflow = 11
errno_code eisdir = 12
errno_code ebusy = 13
errno_code enoent = 14
errno_code emfile = 15

-- An `int` result: a number that is not negative, or `-NEWLAND_E…`.
pub data Ret : Type 0 where
  value : ℕ → Ret
  failed : Errno → Ret

-- `r < 0`
abbrev pub is_failed : Ret → Bool
is_failed (value _) = false
is_failed (failed _) = true

-- The same result in a `size_t` of 32 bits, where an error is a large number.
unfoldable pub as_size : Ret → ℕ
unfolding errno_code
as_size (value n) = n
as_size (failed e) = 2 ^ 32 - errno_code e

-- `(size_t)-1`
abbrev pub size_minus_one : ℕ
size_minus_one = 2 ^ 32 - 1

-- NAME_MAX and PATH_MAX (libraries/libc/include/limits.h)
abbrev pub name_max : ℕ
name_max = 128

abbrev pub path_max : ℕ
path_max = 4096

pub Ret-cases : (r : Ret) → ((n : ℕ) × (r ≡ value n)) ⊎ ((e : Errno) × (r ≡ failed e))
Ret-cases (value n) = inl (n, refl)
Ret-cases (failed e) = inr (e, refl)
