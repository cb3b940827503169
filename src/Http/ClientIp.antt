-- ===== src/Http/ClientIp.antt =====
-- The key under which the limiter counts a request.
use tonpayment.Base.{ℕ, true, false, [], ◌∷◌, ◌++◌, ◌≡◌, ◌≢◌, refl, ap, ◌∙◌, All}
use tonpayment.Base.Text.{Text, codes, is_empty}
use tonpayment.Golib.Strings.{cut_at-append, contains_byte-none, trim_space_graphic, IsGraphic}
use tonpayment.Golib.Net.{split_host_plain, IsPlain}
use tonpayment.Http.Message.{Request}
use tonpayment.Http.Middleware.{client_ip}

direct :
    (r : Request) (host port : Text)
    → All IsPlain host
    → All IsPlain port
    → r.remote_addr ≡ host ++ b':' ∷ port
    → client_ip r false ≡ host
unfolding client_ip
direct r host port hh hp e =
    ap (λ a. client_ip (record r { remote_addr = a }) false) e
    ∙ rw (split_host_plain host port hh hp) refl

not_empty : (a t : Text) → a ≢ [] → is_empty (a ++ t) ≡ false
not_empty [] t n = absurd (n refl)
not_empty (c ∷ a) t n = refl

abbrev pub IsListed : ℕ → Type 0
IsListed c = IsGraphic c × (c ≢ b',')

graphic : (a : Text) → All IsListed a → All IsGraphic a × All (λ c. c ≢ b',') a
graphic [] h = (tt, tt)
graphic (c ∷ a) (h, hs) = let (g, n) = graphic a hs in ((h.0, g), (h.1, n))

forwarded :
    (r : Request) (a rest : Text)
    → a ≢ []
    → All IsListed a
    → r.header (codes "X-Forwarded-For") ≡ a ++ b',' ∷ rest
    → client_ip r true ≡ a
unfolding client_ip
forwarded r a rest n h e =
    rw
      (
        e,
        not_empty a (b',' ∷ rest) n,
        cut_at-append b',' a rest (contains_byte-none b',' a (graphic a h).1),
      )
      (trim_space_graphic a (graphic a h).0)

-- Where the proxy is not trusted, the key is the host of the connection's address, whatever the headers
-- say. Where it is trusted, the key is the leftmost address of the list in X-Forwarded-For, whoever
-- wrote it.
pub client_ip_lem :
    (r : Request)
    → ((host port : Text)
        → All IsPlain host
        → All IsPlain port
        → r.remote_addr ≡ host ++ b':' ∷ port
        → client_ip r false ≡ host)
      × ((a rest : Text)
          → a ≢ []
          → All IsListed a
          → r.header (codes "X-Forwarded-For") ≡ a ++ b',' ∷ rest
          → client_ip r true ≡ a)
client_ip_lem r = (direct r, forwarded r)
