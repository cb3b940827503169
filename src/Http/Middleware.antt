-- ===== src/Http/Middleware.antt =====
-- internal/httpx/middleware.go. The programs have no panic and no log: `recoverMW` and `logger`, which
-- pass on the response as it is, are left out.
use tonpayment.Base.{Bool, false, ◌&&◌, ◌||◌, not, Option, none, some, List, [], ◌∷◌, if◌then◌else◌}
use tonpayment.Base.Text.{Text, codes, text_eq, is_empty}
use tonpayment.Base.Dict.{insert}
use tonpayment.Golib.Strings.{trim_space, cut_at}
use tonpayment.Golib.Hex.{encode}
use tonpayment.Golib.Net.{split_host}
use tonpayment.Service.Program.{Prog, ret, random}
use tonpayment.Http.Message.{
  Request, Headers, Response, Handler, nothing, rate_limited, write_error,
}
use tonpayment.Http.Limiter.{allow}

unfoldable pub request_id : Handler → Handler
request_id next r now rl =
    let (p, rl') = next r now rl in
    (λ h. random 8 (λ bytes. p (insert (codes "X-Request-Id") (encode bytes) h)), rl')

unfoldable pub secured : Bool → Headers → Headers
secured prod h =
    let h' = insert (codes "X-Frame-Options") (codes "DENY") (
      insert (codes "Referrer-Policy") (codes "no-referrer")
        (insert (codes "X-Content-Type-Options") (codes "nosniff") h)) in
    if prod
    then insert (codes "Strict-Transport-Security") (codes "max-age=31536000; includeSubDomains") h'
    else h'

unfoldable pub security_headers : Bool → Handler → Handler
unfolding secured
security_headers prod next r now rl = let (p, rl') = next r now rl in (λ h. p (secured prod h), rl')

-- `set[origin]`
unfoldable pub is_listed : Text → List Text → Bool
is_listed o [] = false
is_listed o (a ∷ allowed) = text_eq a o || is_listed o allowed

unfoldable pub shared_with : List Text → Text → Headers → Headers
unfolding is_listed
shared_with allowed origin h =
    if not (is_empty origin) && is_listed origin allowed
    then insert (codes "Access-Control-Allow-Methods") (codes "GET, POST, OPTIONS") (
        insert (codes "Access-Control-Allow-Headers")
          (codes "Content-Type, Authorization, X-API-Key")
          (insert (codes "Vary") (codes "Origin")
            (insert (codes "Access-Control-Allow-Origin") origin h)))
    else h

unfoldable pub no_content : Headers → Prog Response
no_content h = ret (record { status = 204; headers = h; body = nothing })

unfoldable pub cors : List Text → Handler → Handler
unfolding shared_with no_content
cors allowed next r now rl =
    let rest = next r now rl in
    let set = shared_with allowed (r.header (codes "Origin")) in
    if text_eq r.method (codes "OPTIONS")
    then (λ h. no_content (set h), rl)
    else (λ h. rest.0 (set h), rest.1)

-- The first of the addresses, which a comma ends.
first_forwarded : Text → Option (Text × Text) → Text
first_forwarded xff none = trim_space xff
first_forwarded xff (some (before, behind)) = trim_space before

remote_host : Text → Option Text → Text
remote_host addr none = addr
remote_host addr (some host) = host

unfoldable pub client_ip : Request → Bool → Text
unfolding first_forwarded remote_host
client_ip r trust_proxy =
    let xff = r.header (codes "X-Forwarded-For") in
    if trust_proxy && not (is_empty xff)
    then first_forwarded xff (cut_at b',' xff)
    else remote_host r.remote_addr (split_host r.remote_addr)

unfoldable pub wrap : Handler → Handler
wrap next r now rl =
    let (ok, rl') = allow (client_ip r rl.trust_proxy) now rl in
    if ok then next r now rl' else (λ h. ret (write_error 429 rate_limited h), rl')

unfoldable pub chain : Handler → List (Handler → Handler) → Handler
chain h [] = h
chain h (mw ∷ mws) = mw (chain h mws)
