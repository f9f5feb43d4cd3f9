-- ===== src/Server/Responses.antt =====
-- What a handler answers, and the names of units in the paths of requests: pkg/server/http_utils.go.
use itzo.Base.{
  ◌≡◌, List, [], ◌∷◌, ◌++◌, if◌then◌else◌, ◌==◌, nat_eq, Str, lit, split, join, join-split, Error,
}

-- Statuses 404, 400, 500 and 200; and a connection that is taken over as a websocket.
pub data Response : Type 0 where
  not_found : Response
  bad_request : Error → Response
  server_error : Error → Response
  answered : Str → Response
  upgraded : Response

-- `strings.TrimPrefix(path, "/")`
unfoldable pub trim_slash : Str → Str
trim_slash [] = []
trim_slash (c ∷ path) = if c == b'/' then path else c ∷ path

-- `strings.Join(parts, "/")`
join_slash : List Str → Str
unfolding join
join_slash [] = []
join_slash (part ∷ parts) = join b'/' part parts

-- The parts from the fourth on, if there are that many.
after_three : List Str → Str
unfolding join_slash
after_three (a ∷ b ∷ c ∷ d ∷ parts) = join_slash (d ∷ parts)
after_three _ = []

unfoldable pub path_parts : Str → List Str
unfolding split trim_slash
path_parts path = let r = split b'/' (trim_slash path) in r.0 ∷ r.1

unfoldable pub get_unit_from_path : Str → Str
unfolding after_three path_parts
get_unit_from_path path = after_three (path_parts path)

-- A path of an endpoint for units names its unit, also one with slashes in its name.
pub get_unit_from_path_lem :
    (unit : Str)
    → (get_unit_from_path (lit "/rest/v1/logs/" ++ unit) ≡ unit)
      × (get_unit_from_path (lit "/rest/v1/attach/" ++ unit) ≡ unit)
unfolding get_unit_from_path lit
get_unit_from_path_lem unit = (join-split b'/' unit, join-split b'/' unit)
