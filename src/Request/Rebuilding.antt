-- ===== src/Request/Rebuilding.antt =====
-- The request that a server runner (src/server_runners/) rebuilds is the one that came.
use ezsockets.Base.{[], append-nil, append_assoc, arith, sym, ◌++◌, ◌∙◌, ◌∷◌, ◌≡◌}
use ezsockets.Request.{append_headers, HeaderMap, HttpRequest, pure_request}

append_headers_lem : (hs headers : HeaderMap) → append_headers hs headers ≡ headers ++ hs
unfolding append_headers
append_headers_lem [] headers = sym (append-nil headers)
append_headers_lem ((k, v) ∷ rest) headers =
    append_headers_lem rest (headers ++ (k, v) ∷ []) ∙ append_assoc headers ((k, v) ∷ []) rest

pub pure_request_same : {V : Type 0} (r : HttpRequest V) → pure_request r ≡ r
unfolding pure_request
pure_request_same r = ground (arith, append_headers_lem r.head.request_headers [])
