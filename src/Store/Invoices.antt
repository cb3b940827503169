-- ===== src/Store/Invoices.antt =====
-- internal/store/store.go: the invoice and its statuses.
use tonpayment.Base.{ℕ, ◌/◌, zero, suc, Bool, true, false, ◌≡◌, ◌≢◌, ◌⊎◌, inl, inr, refl}
use tonpayment.Base.Int.{ℤ, pos, negsuc, ◌-ℤ◌}
use tonpayment.Base.Text.{Text}
use tonpayment.Base.Dict.{Dict}

-- StatusPending, StatusPaid and StatusExpired.
pub data Status : Type 0 where
  pending paid expired : Status

abbrev pub is_pending : Status → Bool
is_pending pending = true
is_pending paid = false
is_pending expired = false

pub Status-cases :
    (s : Status)
    → ((is_pending s ≡ true) × (s ≡ pending)) ⊎ ((is_pending s ≡ false) × (s ≢ pending))
Status-cases pending = inl (refl, refl)
Status-cases paid = inr (refl, λ e. cc)
Status-cases expired = inr (refl, λ e. cc)

-- A `time.Time`: nanoseconds since Go's zero time, which is `pos 0`.
abbrev pub Time : Type 0
Time = ℤ

abbrev pub zero_time : Time
zero_time = pos 0

pub record Invoice : Type 0 where
  pub id : Text
  pub pay_to : Text
  pub memo : Text
  pub amount_nano : ℤ
  pub currency : Text
  pub status : Status
  pub tx_hash : Text
  pub metadata : Dict Text
  pub created_at : Time
  pub paid_at : Time
  pub expires_at : Time

-- `t.IsZero()`
abbrev pub is_zero : Time → Bool
is_zero (pos zero) = true
is_zero (pos (suc n)) = false
is_zero (negsuc n) = false

-- `time.Hour` and `time.Second`, in nanoseconds.
abbrev pub hour : ℕ
hour = 3_600_000_000_000

-- `t.Unix()`: whole seconds since 1970, rounded down. The zero time is 62135596800 seconds earlier.
unfoldable pub unix : Time → ℤ
unix (pos n) = pos (n / 1_000_000_000) -ℤ pos 62_135_596_800
unix (negsuc n) = negsuc (n / 1_000_000_000) -ℤ pos 62_135_596_800
