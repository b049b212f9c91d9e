-- ===== src/Core/Time.antt =====
-- `Date.prototype.toISOString` for the times from the epoch on, in milliseconds.
use Prim.Native.String.{◌++◌}
use inntris_x402_policy_adap.Base.{
  ℕ, zero, suc, ◌+◌, ◌-◌, ◌*◌, ◌/◌, ◌%◌, String, ◌≡◌, refl, ltb, ◌==◌, if◌then◌else◌,
}

unfoldable pub digit : ℕ → String
digit n =
    if n == 0
    then "0"
    else if n == 1
    then "1"
    else if n == 2
    then "2"
    else if n == 3
    then "3"
    else if n == 4
    then "4"
    else if n == 5
    then "5"
    else if n == 6
    then "6"
    else if n == 7
    then "7"
    else if n == 8
    then "8"
    else "9"

-- The last `width` decimal digits.
padded : ℕ → ℕ → String
unfolding digit
padded zero n = ""
padded (suc w) n = padded w (n / 10) ++ digit (n % 10)

-- The civil date of a day number, by 400-year eras that begin on 1 March of year 0.
date_text : ℕ → String
unfolding padded
date_text day =
    let z = day + 719468 in
    let era = z / 146097 in
    let doe = z % 146097 in
    let yoe = (doe - doe / 1460 + doe / 36524 - doe / 146096) / 365 in
    let doy = doe - (365 * yoe + yoe / 4 - yoe / 100) in
    let mp = (5 * doy + 2) / 153 in
    let month = if ltb mp 10 then mp + 3 else mp - 9 in
    let year = yoe + era * 400 + (if ltb month 3 then 1 else 0) in
    padded 4 year ++ "-" ++ padded 2 month ++ "-" ++ padded 2 (doy - (153 * mp + 2) / 5 + 1)

unfoldable pub iso_text : ℕ → String
unfolding date_text padded
iso_text t =
    let s = t / 1000 in
    date_text (s / 86400)
    ++ "T"
    ++ padded 2 (s / 3600 % 24)
    ++ ":"
    ++ padded 2 (s / 60 % 60)
    ++ ":"
    ++ padded 2 (s % 60)
    ++ "."
    ++ padded 3 (t % 1000)
    ++ "Z"

iso_text_known : iso_text 1709210096789 ≡ "2024-02-29T12:34:56.789Z"
unfolding iso_text
iso_text_known = refl
