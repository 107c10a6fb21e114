-- ===== src/Api/Request/Laws.antt =====
-- Every request that changes something is preceded by a request for a CSRF token, and carries it.
use cassist.Prelude.{◌≡◌, false, none, [], ◌∷◌, arith, String}
use cassist.Api.World.{get, Call, Error, World, Log, called, uuid_drawn, ok, err}
use cassist.Api.Request.{
  Options, call_of, api_request, get_csrf_token, csrf_request, with_mutation_headers,
}

-- The request for a token.
abbrev pub token_call : Call
token_call = record {
  method = get;
  path = "/auth/csrf";
  query = [];
  headers = ("Accept", "application/json") ∷ [];
  body = none;
  credentials = "include";
  timeout_ms = 30000;
  signalled = false;
}

pub log-get_csrf_token :
    (w : World) (l : Log) → (get_csrf_token false w l).1 ≡ called token_call ∷ l
unfolding get_csrf_token
log-get_csrf_token w l = ground arith

-- What one guarded request does to the log: the request for the token, and with a token the request
-- itself, under a new key.
abbrev pub guarded_log : World → Log → String → Options → Log
guarded_log w l path o = elim (get_csrf_token false w l).0 [
  | ok t ↦
      called (call_of path (with_mutation_headers (w.random_uuid (called token_call ∷ l)) t o))
      ∷ uuid_drawn
      ∷ called token_call
      ∷ l
  | err e ↦ called token_call ∷ l
]

pub log-csrf_request :
    (path : String) (o : Options) (w : World) (l : Log)
    → o.signalled ≡ false
    → o.idempotency_key ≡ none
    → (csrf_request path o w l).1 ≡ guarded_log w l path o
unfolding csrf_request api_request
log-csrf_request path o w l s k = ground (arith, log-get_csrf_token w l)

-- Without a token nothing more is sent, and the request rejects as the one for the token did.
pub csrf_request_no_token :
    (path : String) (o : Options) (w : World) (l : Log) (e : Error)
    → o.signalled ≡ false
    → (get_csrf_token false w l).0 ≡ err e
    → csrf_request path o w l ≡ (err e, called token_call ∷ l)
unfolding csrf_request
csrf_request_no_token path o w l e s h = ground (arith, log-get_csrf_token w l)

-- With a token the request itself follows, under a new key.
pub log-csrf_request_token :
    (path : String) (o : Options) (w : World) (l : Log) (t : String)
    → o.signalled ≡ false
    → o.idempotency_key ≡ none
    → (get_csrf_token false w l).0 ≡ ok t
    → (csrf_request path o w l).1
      ≡ called (call_of path (with_mutation_headers (w.random_uuid (called token_call ∷ l)) t o))
        ∷ uuid_drawn
        ∷ called token_call
        ∷ l
log-csrf_request_token path o w l t s k given = ground (arith, log-csrf_request path o w l s k)
