-- ===== src/Http/Server/Guards.antt =====
-- The headers that every response carries, and the headers that leave them as they are.
use tonpayment.Base.{
  Bool, true, false, not, ◌&&◌, Option, none, some, List, [], ◌∷◌, ◌≡◌, ◌∙◌, refl, if◌then◌else◌,
}
use tonpayment.Base.Text.{Text, codes, text_eq, is_empty}
use tonpayment.Base.Dict.{lookup, insert, lookup-insert, lookup-insert_self}
use tonpayment.Http.Message.{Headers}
use tonpayment.Http.Middleware.{is_listed}

-- The headers that guard a browser and name the request.
abbrev guards : List Text
guards =
    codes "X-Request-Id"
    ∷ codes "X-Content-Type-Options"
    ∷ codes "X-Frame-Options"
    ∷ codes "Referrer-Policy"
    ∷ codes "Strict-Transport-Security"
    ∷ codes "Access-Control-Allow-Origin"
    ∷ []

-- The origin that the headers share the response with.
abbrev pub sharing : List Text → Text → Option Text
sharing allowed origin =
    if not (is_empty origin) && is_listed origin allowed then some origin else none

-- A request id, the three security headers, transport security in production, and the sharing of
-- the response with the origin of the request if it is listed, and with no other.
pub record IsHardened (prod : Bool) (shared : Option Text) (h : Headers) : Type 0 where
  pub identified : (id : Text) × (lookup (codes "X-Request-Id") h ≡ some id)
  pub nosniff : lookup (codes "X-Content-Type-Options") h ≡ some (codes "nosniff")
  pub framed : lookup (codes "X-Frame-Options") h ≡ some (codes "DENY")
  pub referrer : lookup (codes "Referrer-Policy") h ≡ some (codes "no-referrer")
  pub transport :
      prod ≡ true
      → lookup (codes "Strict-Transport-Security") h
        ≡ some (codes "max-age=31536000; includeSubDomains")
  pub origin : lookup (codes "Access-Control-Allow-Origin") h ≡ shared

-- A header other than the guards.
IsOther : Text → List Text → Type 0
IsOther k [] = Unit {0}
IsOther k (g ∷ gs) = (text_eq k g ≡ false) × IsOther k gs

lookup-insert_other :
    (k j : Text) (v : Text) (h : Headers)
    → text_eq k j ≡ false
    → lookup j (insert k v h) ≡ lookup j h
lookup-insert_other k j v h n = lookup-insert k j v h ∙ rw n refl

module _ (prod : Bool) (shared : Option Text) where
  abbrev Good : Headers → Type 0
  Good = IsHardened prod shared

  insert-IsHardened : (k v : Text) (h : Headers) → IsOther k guards → Good h → Good (insert k v h)
  unfolding IsOther
  insert-IsHardened k v h (n0, (n1, (n2, (n3, (n4, (n5, _)))))) g = record {
    identified = (g.identified.0, lookup-insert_other k _ v h n0 ∙ g.identified.1);
    nosniff = lookup-insert_other k _ v h n1 ∙ g.nosniff;
    framed = lookup-insert_other k _ v h n2 ∙ g.framed;
    referrer = lookup-insert_other k _ v h n3 ∙ g.referrer;
    transport = λ p. lookup-insert_other k _ v h n4 ∙ g.transport p;
    origin = lookup-insert_other k _ v h n5 ∙ g.origin;
  }

  pub insert_nosniff :
      (h : Headers) → Good h → Good (insert (codes "X-Content-Type-Options") (codes "nosniff") h)
  unfolding text_eq
  insert_nosniff h g = record {
    identified =
        (g.identified.0, lookup-insert_other _ _ (codes "nosniff") h refl ∙ g.identified.1);
    nosniff = lookup-insert_self _ (codes "nosniff") h;
    framed = lookup-insert_other _ _ (codes "nosniff") h refl ∙ g.framed;
    referrer = lookup-insert_other _ _ (codes "nosniff") h refl ∙ g.referrer;
    transport = λ p. lookup-insert_other _ _ (codes "nosniff") h refl ∙ g.transport p;
    origin = lookup-insert_other _ _ (codes "nosniff") h refl ∙ g.origin;
  }

  pub insert_type : (v : Text) (h : Headers) → Good h → Good (insert (codes "Content-Type") v h)
  unfolding IsOther text_eq
  insert_type v h g =
      insert-IsHardened (codes "Content-Type") v h
        (refl, (refl, (refl, (refl, (refl, (refl, tt)))))) g

  pub insert_cache : (v : Text) (h : Headers) → Good h → Good (insert (codes "Cache-Control") v h)
  unfolding IsOther text_eq
  insert_cache v h g =
      insert-IsHardened (codes "Cache-Control") v h
        (refl, (refl, (refl, (refl, (refl, (refl, tt)))))) g

  pub insert_allow : (v : Text) (h : Headers) → Good h → Good (insert (codes "Allow") v h)
  unfolding IsOther text_eq
  insert_allow v h g =
      insert-IsHardened (codes "Allow") v h (refl, (refl, (refl, (refl, (refl, (refl, tt)))))) g
