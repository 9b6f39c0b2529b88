-- ===== src/Metrics/Server.antt =====
-- NewServer, Serve and Shutdown (internal/metrics/server.go), and the routes of the http.ServeMux.
--
-- listen is net.Listen("tcp", ...): the address that is bound, or none. A route is for requests whose
-- path is clean, which the mux redirects to otherwise, and has no percent sign.
use logstat.Prelude.{Bool, List, [], ◌∷◌, Option, none, some, ◌⊎◌, inl, inr, if◌then◌else◌}
use logstat.Text.{Text, codes, text_eq}
use logstat.Text.Search.{has_prefix, has_suffix}
use logstat.Config.{Metrics}
use logstat.Config.Route.{RouteProblem, validate_path, slash}

-- promhttp.HandlerFor(NewRegistry(c), ...) and c.statusHandler()
pub data Handler : Type 0 where
  exposition status_page : Handler

pub data ServerError : Type 0 where
  bad_path : RouteProblem → ServerError
  cannot_listen : Text → ServerError
  cannot_serve cannot_shut_down : ServerError

-- Server, with the patterns that its mux has.
pub record Server : Type 0 where
  pub addr : Text
  pub path : Text
  pub routes : List (Text × Handler)

-- "/{$}", the root alone.
abbrev pub root_alone : Text
root_alone = codes "/{$}"

-- The calls of mux.Handle.
abbrev pub routes_for : Text → List (Text × Handler)
routes_for path =
    (path, Handler.exposition)
    ∷ (if text_eq path slash then [] else (root_alone, Handler.status_page) ∷ [])

-- NewServer
unfoldable pub new_server : (Text → Option Text) → Metrics → ServerError ⊎ Server
new_server listen m = elim (validate_path m) [
  | some p ↦ inl (bad_path p)
  | none ↦ elim (listen m.listen) [
    | none ↦ inl (cannot_listen m.listen)
    | some bound ↦ inr (record { addr = bound; path = m.path; routes = routes_for m.path })
  ]
]

-- What http.Server.Serve returns: no error, http.ErrServerClosed, or another.
pub data ServeEnd : Type 0 where
  no_error server_closed other_error : ServeEnd

-- Server.Serve
unfoldable pub serve : ServeEnd → Option ServerError
serve no_error = none
serve server_closed = none
serve other_error = some cannot_serve

-- Server.Shutdown, of whether http.Server.Shutdown ends in time.
unfoldable pub shutdown : Bool → Option ServerError
shutdown in_time = if in_time then none else some cannot_shut_down

-- Whether a pattern of http.ServeMux with no other wildcard matches: "/{$}" the root, a pattern that
-- ends in a slash all paths below it, and any other itself.
unfoldable pub matches : Text → Text → Bool
matches pattern path =
    if text_eq pattern root_alone
    then text_eq path slash
    else if has_suffix pattern slash
    then has_prefix path pattern
    else text_eq path pattern

-- The handler of the pattern that matches; none is the answer 404.
unfoldable pub route : List (Text × Handler) → Text → Option Handler
unfolding matches
route [] path = none
route ((pattern, h) ∷ routes) path =
    let rest = route routes path in if matches pattern path then some h else rest
