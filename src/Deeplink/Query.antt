-- ===== src/Deeplink/Query.antt =====
-- What a wallet reads off a payment link.
use mathlib.Core.Option
use tonpayment.Base.{ℕ, Option, some, [], ◌∷◌, ◌++◌, ◌≡◌, ◌≢◌, refl, ◌∙◌, arith, All, suc}
use tonpayment.Base.Int.{ℤ, pos, negsuc}
use tonpayment.Base.Text.{Text, codes}
use tonpayment.Golib.Hex.{IsByte}
use tonpayment.Golib.Strings.{cut_prefix, cut_at, cut_at-append, contains_byte-none}
use tonpayment.Golib.Strconv.{
  format_int, parse_int, parse_int-format_int, Fits, format_uint-IsNumeral, IsNumeral, IsDigit,
}
use tonpayment.Golib.Url.{
  query_escape, query_unescape, query_unescape-query_escape, query_escape-All,
}
use tonpayment.Deeplink.{build}

pub record Payment : Type 0 where
  pub pay_to : Text
  pub amount_nano : ℤ
  pub memo : Text

read_memo : Text → ℤ → Text → Option Payment
read_memo pay_to n t = Option.bind (cut_prefix (codes "text=") t) λ s.
    Option.map (λ memo. record { pay_to = pay_to; amount_nano = n; memo = memo }) (query_unescape s)

read_amount : Text → Text × Text → Option Payment
unfolding read_memo
read_amount pay_to (a, t) =
    Option.bind (query_unescape a) λ s. Option.bind (parse_int 64 s) λ n. read_memo pay_to n t

read_query : Text × Text → Option Payment
unfolding read_amount
read_query (pay_to, q) =
    Option.bind (cut_prefix (codes "amount=") q)
      λ s. Option.bind (cut_at b'&' s) (read_amount pay_to)

-- The address up to the question mark, and the two pairs of the query, unescaped.
pub read_link : Text → Option Payment
unfolding read_query
read_link s =
    Option.bind (cut_prefix (codes "ton://transfer/") s)
      λ rest. Option.bind (cut_at b'?' rest) read_query

cut_prefix_cons : (c : ℕ) (p s : Text) → cut_prefix (c ∷ p) (c ∷ s) ≡ cut_prefix p s
unfolding cut_prefix
cut_prefix_cons c p s = ground arith

cut_prefix-append : (p s : Text) → cut_prefix p (p ++ s) ≡ some s
cut_prefix-append [] s = unfold cut_prefix in refl
cut_prefix-append (c ∷ p) s = cut_prefix_cons c p (p ++ s) ∙ cut_prefix-append p s

All-IsByte : (s : Text) → All IsDigit s → All IsByte s
All-IsByte [] h = tt
All-IsByte (c ∷ s) (h, hs) = (omega (arith, h), All-IsByte s hs)

numeral_IsByte : (s : Text) → IsNumeral s → All IsByte s
numeral_IsByte [] h = absurd h
numeral_IsByte (c ∷ s) (h, hs) = (omega (arith, h), All-IsByte s hs)

format_int-IsByte : (i : ℤ) → All IsByte (format_int i)
unfolding format_int
format_int-IsByte (pos n) = numeral_IsByte _ (format_uint-IsNumeral n)
format_int-IsByte (negsuc n) = (omega arith, numeral_IsByte _ (format_uint-IsNumeral (suc n)))

read_memo_text :
    (pay_to : Text) (n : ℤ) (memo : Text)
    → All IsByte memo
    → read_memo pay_to n (codes "text=" ++ query_escape memo)
      ≡ some (record { pay_to = pay_to; amount_nano = n; memo = memo })
unfolding read_memo
read_memo_text pay_to n memo h =
    rw (cut_prefix-append (codes "text=") (query_escape memo))
      (unfold Option.bind in rw (query_unescape-query_escape memo h) (refl))

read_amount_text :
    (pay_to : Text) (n : ℤ) (t : Text)
    → Fits 64 n
    → read_amount pay_to (query_escape (format_int n), t) ≡ read_memo pay_to n t
unfolding read_amount
read_amount_text pay_to n t fits =
    rw (query_unescape-query_escape (format_int n) (format_int-IsByte n))
      (unfold Option.bind in rw (parse_int-format_int 64 n fits) refl)

read_query_text :
    (pay_to : Text) (n : ℤ) (t : Text)
    → Fits 64 n
    → read_query (pay_to, codes "amount=" ++ (query_escape (format_int n) ++ b'&' ∷ t))
      ≡ read_memo pay_to n t
unfolding read_query
read_query_text pay_to n t fits =
    rw (cut_prefix-append (codes "amount=") (query_escape (format_int n) ++ b'&' ∷ t)) (
      unfold Option.bind in
      rw
        (cut_at-append b'&' (query_escape (format_int n)) t (
          contains_byte-none b'&' (query_escape (format_int n))
            (query_escape-All (format_int n) (format_int-IsByte n))))
        (read_amount_text pay_to n t fits))

-- A payment link says exactly what is to be paid: to whom, how much and with which memo. This holds for
-- every amount of 64 bits, every memo and every address without a question mark.
pub read_link-build :
    (pay_to : Text) (n : ℤ) (memo : Text)
    → All (λ d. d ≢ b'?') pay_to
    → Fits 64 n
    → All IsByte memo
    → read_link (build pay_to n memo)
      ≡ some (record { pay_to = pay_to; amount_nano = n; memo = memo })
unfolding read_link build
read_link-build pay_to n memo plain fits bytes =
    rw (cut_prefix-append (codes "ton://transfer/") (pay_to ++ b'?' ∷ query)) (
      unfold Option.bind in
      rw (cut_at-append b'?' pay_to query (contains_byte-none b'?' pay_to plain)) (
        read_query_text pay_to n (codes "text=" ++ query_escape memo) fits
        ∙ read_memo_text pay_to n memo bytes))
  where
    query : Text
    query =
        codes "amount=" ++ (query_escape (format_int n) ++ (codes "&text=" ++ query_escape memo))
