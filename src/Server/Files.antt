-- ===== src/Server/Files.antt =====
-- `fileHandler` of pkg/server/server.go: the end of a file of the host.
use itzo.Base.{
  Option, none, some, [], if◌then◌else◌, ◌&&◌, ◌==◌, str_eq, Str, lit, ℤ, pos, is_zero, Error, ◌⊎◌,
  inl, inr,
}
use itzo.Utils.Files.{tail_file}
use itzo.Server.Logs.{number_of}
use itzo.Server.Responses.{Response, not_found, bad_request, answered}

abbrev pub file_bytes_limit : ℤ
file_bytes_limit = pos 4096

tail_answer : Option (Error ⊎ Str) → Option Response
tail_answer none = none
tail_answer (some (inl e)) = some (bad_request (Error.wrapf "Error reading file %s" [] e))
tail_answer (some (inr text)) = some (answered text)

-- The parameters are `r.FormValue`, `strconv.Atoi` and what the host has at a path.
module _ (form : Str → Str) (atoi : Str → Error ⊎ ℤ) (host : Str → Error ⊎ Str) where
  bytes_wanted : ℤ → ℤ → ℤ
  bytes_wanted lines num_bytes =
      if is_zero num_bytes && is_zero lines then file_bytes_limit else num_bytes

  get_file : Str → ℤ → ℤ → Option Response
  unfolding tail_answer tail_file bytes_wanted
  get_file path lines num_bytes =
      tail_answer (tail_file (host path) lines (bytes_wanted lines num_bytes))

  -- `none` is a panic.
  unfoldable pub file_handler : Str → Option Response
  unfolding get_file number_of lit
  file_handler method =
      if method == lit "GET"
      then (if form (lit "path") == []
          then some (bad_request (Error.errorf "Missing path parameter" []))
          else get_file (form (lit "path")) (number_of atoi (form (lit "lines")))
              (number_of atoi (form (lit "bytes"))))
      else some not_found
