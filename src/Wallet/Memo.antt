-- ===== src/Wallet/Memo.antt =====
-- `NewMemo` of internal/wallet/wallet.go.
use tonpayment.Base.{ℕ, List, ◌++◌}
use tonpayment.Base.Text.{Text, codes}
use tonpayment.Golib.Hex

unfoldable pub memo_of : List ℕ → Text
memo_of bytes = codes "TON-" ++ Hex.encode bytes
