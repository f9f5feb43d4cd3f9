-- ===== src/Server/Logs.antt =====
-- `logsHandler` of pkg/server/server.go, with `NewLogOptionsFromURL` of pkg/runtime/options.go.
pub mod Laws
use itzo.Base.{
  ℕ, ◌-◌, Bool, true, false, not, ◌&&◌, Option, none, some, List, [], ◌∷◌, ◌++◌, if◌then◌else◌, ltb,
  ◌==◌, str_eq, str_beq, length, drop, Str, lit, ℤ, pos, negsuc, Error, ◌⊎◌, inl, inr,
}
use itzo.Io.{Result, ok, err, panic}
use itzo.Controller.State.{PodController}
use itzo.Controller.Status.{get_unit_name}
use itzo.LogBuf.{LogBuffer, read}
use itzo.Server.Responses.{Response, not_found, bad_request, answered, upgraded, get_unit_from_path}
use itzo.Server.Tail.{format_all}

pub record LogOptions : Type 0 where
  pub unit_name : Str
  pub follow : Bool
  pub with_metadata : Bool
  pub line_num : ℤ
  pub bytes_num : ℤ

-- A parsed URL: its path, and the first value of each parameter of its query.
pub record Url : Type 0 where
  pub path : Str
  pub query : Str → Str

or_zero : Error ⊎ ℤ → ℤ
or_zero (inl e) = pos 0
or_zero (inr i) = i

-- A text that is no number counts as 0. `atoi` is `strconv.Atoi`.
unfoldable pub number_of : (Str → Error ⊎ ℤ) → Str → ℤ
unfolding or_zero
number_of atoi [] = pos 0
number_of atoi (c ∷ s) = or_zero (atoi (c ∷ s))

options_of : (Str → Error ⊎ ℤ) → Url → LogOptions
unfolding get_unit_from_path number_of lit
options_of atoi url = record {
  unit_name = get_unit_from_path url.path;
  follow = not (str_beq (url.query (lit "follow")) []);
  with_metadata = url.query (lit "metadata") == lit "1";
  line_num = number_of atoi (url.query (lit "lines"));
  bytes_num = number_of atoi (url.query (lit "bytes"));
}

-- The second argument is what package net/url makes of the request's URL.
unfoldable pub new_log_options_from_url : (Str → Error ⊎ ℤ) → Error ⊎ Url → Error ⊎ LogOptions
unfolding options_of
new_log_options_from_url atoi (inl e) = inl e
new_log_options_from_url atoi (inr url) = inr (options_of atoi url)

-- The last `bytes_num` bytes, if there is a limit and the text is longer.
unfoldable pub last_bytes : ℤ → Str → Str
last_bytes (negsuc n) text = text
last_bytes (pos n) text =
    if ltb 0 n && ltb n (length text) then drop (length text - n) text else text

-- `none` is a panic.
abbrev pub limited : ℤ → Option Str → Option Str
limited bytes_num none = none
limited bytes_num (some text) = some (last_bytes bytes_num text)

unfoldable pub log_text : LogBuffer → LogOptions → Option Str
unfolding last_bytes
log_text log_buffer options =
    limited options.bytes_num (format_all options.with_metadata (read log_buffer options.line_num))

answer_text : Option Str → Option Response
answer_text none = none
answer_text (some text) = some (answered text)

module _ {W : Type 0} (get_log_buffer : LogOptions → Error ⊎ LogBuffer) (pc : PodController W) where
  send_logs : LogOptions → Error ⊎ LogBuffer → Option Response
  unfolding answer_text log_text
  send_logs options (inl e) = some (bad_request e)
  send_logs options (inr log_buffer) =
      if options.follow then some upgraded else answer_text (log_text log_buffer options)

  logs_of_unit : LogOptions → Result Str → Option Response
  unfolding send_logs
  logs_of_unit options (ok unit_name) = send_logs options (get_log_buffer options)
  logs_of_unit options (err e) = some (bad_request e)
  logs_of_unit options panic = none

  -- The name of the unit that is found is used to follow its lines only; the buffer is asked for by
  -- the name in the request.
  get_logs : Error ⊎ LogOptions → Option Response
  unfolding logs_of_unit get_unit_name
  get_logs (inl e) = some (bad_request e)
  get_logs (inr options) = logs_of_unit options (get_unit_name pc options.unit_name)

  unfoldable pub logs_handler : (Str → Error ⊎ ℤ) → Str → Error ⊎ Url → Option Response
  unfolding get_logs new_log_options_from_url lit
  logs_handler atoi method url =
      if method == lit "GET" then get_logs (new_log_options_from_url atoi url) else some not_found
