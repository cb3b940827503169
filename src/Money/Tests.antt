-- ===== src/Money/Tests.antt =====
-- A negative amount, printed and read.
use tonpayment.Base.{some, ◌≡◌, arith}
use tonpayment.Base.Int.{negsuc}
use tonpayment.Money.{nano_to_ton_string}
use tonpayment.Money.RoundTrip.{read_ton, read_ton-nano_to_ton_string}

read_ton-nano_to_ton_string_example :
    read_ton (nano_to_ton_string (negsuc 1_099_999_999)) ≡ some (negsuc 1_099_999_999)
read_ton-nano_to_ton_string_example =
    read_ton-nano_to_ton_string (negsuc 1_099_999_999) (ground arith)
