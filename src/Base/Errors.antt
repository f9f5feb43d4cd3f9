-- ===== src/Base/Errors.antt =====
-- Go's `error` values.
use Prim.Native.Nat.{ℕ}
use Prim.Native.String.{String}
use mathlib.Core.Bool.{Bool, true, false}
use mathlib.Core.List.{List}
use itzo.Base.Strings.{Str}

-- `errorf` is what `fmt.Errorf` builds from a format and the texts put into it, `wrapf` what it or
-- `errors.Wrapf` builds where the last thing put in is an error. `not_exist` and `exist` are the
-- errors of the operating system that `os.IsNotExist` and `os.IsExist` tell; `foreign` is any
-- other error of code outside the repository.
pub data Error : Type 0 where
  errorf : String → List Str → Error
  wrapf : String → List Str → Error → Error
  not_exist : Error
  exist : Error
  foreign : ℕ → Error

-- Which errors an existing directory, or a missing file, is reported with.
unfoldable pub is_exist : Error → Bool
is_exist Error.exist = true
is_exist _ = false

unfoldable pub is_not_exist : Error → Bool
is_not_exist Error.not_exist = true
is_not_exist _ = false
