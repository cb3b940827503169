-- ===== src/Wallet/Mock/Tests.antt =====
-- The second poll confirms, as in the development setup.
use tonpayment.Base.{true, [], ◌∷◌, ◌≡◌, refl}
use tonpayment.Base.Int.{pos}
use tonpayment.Base.Text.{text_eq}
use tonpayment.Wallet.Ton.Tests.{bill}
use tonpayment.Wallet.Mock.{new_mock_verifier, verify}
use tonpayment.Wallet.Mock.Polls.{polls, mock_confirms}

confirmed : (verify bill (polls (bill ∷ []) (new_mock_verifier (pos 2)))).0.is_paid ≡ true
unfolding text_eq
confirmed = rw (mock_confirms (pos 2) (bill ∷ []) bill) refl
