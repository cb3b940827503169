-- ===== src/Idgen.antt =====
-- internal/idgen/idgen.go: ids from nine random bytes, which are twelve symbols and need no padding.
use tonpayment.Base.{ℕ, List, ◌++◌, ◌∷◌}
use tonpayment.Base.Text.{Text}
use tonpayment.Golib.Base64
use tonpayment.Golib.Base64.{url_encoding}

unfoldable pub id_of : Text → List ℕ → Text
id_of prefix bytes = prefix ++ b'_' ∷ Base64.encode url_encoding bytes
