-- ===== src/Deeplink.antt =====
-- internal/deeplink/deeplink.go: payment links and the size of their QR codes. The encoder of the QR
-- code is a third-party package, a parameter.
pub mod Query
pub mod Confirmed
pub mod Paid
mod Tests
use tonpayment.Base.{ℕ, ◌++◌, [], ◌∷◌, Option, if◌then◌else◌, ◌≡◌, refl, List}
use tonpayment.Base.Int.{ℤ, pos, ltb_ℤ}
use tonpayment.Base.Text.{Text, codes}
use tonpayment.Golib.Strconv.{format_int, format_uint}
use tonpayment.Golib.Url.{query_escape}

-- `Values.Encode` of the two keys, in the order of the keys.
unfoldable pub build : Text → ℤ → Text → Text
build pay_to amount_nano memo =
    codes "ton://transfer/"
    ++ (pay_to
        ++ (codes "?amount="
            ++ (query_escape (format_int amount_nano) ++ (codes "&text=" ++ query_escape memo))))

unfoldable pub clamp_size : ℤ → ℤ
clamp_size size =
    if ltb_ℤ size (pos 64) then pos 256 else if ltb_ℤ (pos 1024) size then pos 1024 else size

-- `qrcode.Encode` at the medium level: an image, or an error.
unfoldable pub png : (Text → ℤ → Option (List ℕ)) → Text → ℤ → Option (List ℕ)
unfolding clamp_size
png qr_encode content size = qr_encode content (clamp_size size)

link :
    build (codes "UQx") (pos 2_500_000_000) (codes "TON-00 11")
    ≡ codes "ton://transfer/UQx?amount=2500000000&text=TON-00+11"
unfolding build query_escape format_int
link = refl
