-- ===== src/Policy/Window.antt =====
-- `withinTimeWindow` of packages/policy-engine/src/evaluate.ts, against the minutes of the day.
use mathlib.Core.Path.{ap₂}
use inntris_x402_policy_adap.Base.{
  ℕ, ◌+◌, ◌*◌, ◌-◌, ◌%◌, ◌≤◌, ◌<◌, ◌≡◌, refl, ◌↔◌, Bool, true, false, ◌&&◌, ◌||◌, List, [], ◌∷◌,
  arith, leb, ltb, ◌==◌, if◌then◌else◌,
}
use inntris_x402_policy_adap.Policy.Document.{time_text}

-- `a <= b` on texts: by code units, a prefix first.
unfoldable pub text_le : List ℕ → List ℕ → Bool
text_le [] b = true
text_le (c ∷ a) [] = false
text_le (c ∷ a) (d ∷ b) = ltb c d || (c == d && text_le a b)

unfoldable pub within_time_window : List ℕ → List ℕ → List ℕ → Bool
unfolding text_le
within_time_window time start finish =
    if text_le start finish
    then text_le start time && text_le time finish
    else text_le start time || text_le time finish

-- The minute of the day that a time of the form hh:mm names.
abbrev pub minute : List ℕ → ℕ
minute (h ∷ i ∷ c ∷ m ∷ n ∷ []) = ((h - b'0') * 10 + (i - b'0')) * 60 + (m - b'0') * 10 + (n - b'0')
minute _ = 0

abbrev IsDigit : ℕ → Type 0
IsDigit c = (b'0' ≤ c) × (c ≤ b'9')

record IsTime (h i c m n : ℕ) : Type 0 where
  hour : IsDigit h
  unit : IsDigit i
  colon : c ≡ b':'
  ten : (b'0' ≤ m) × (m ≤ b'5')
  last : IsDigit n
  day : (h - b'0') * 10 + (i - b'0') < 24

time_text-IsTime : (h i c m n : ℕ) → time_text (h ∷ i ∷ c ∷ m ∷ n ∷ []) ≡ true → IsTime h i c m n
unfolding time_text
time_text-IsTime h i c m n e = record {
  hour = (ground arith, ground arith);
  unit = (ground arith, ground arith);
  colon = ground arith;
  ten = (ground arith, ground arith);
  last = (ground arith, ground arith);
  day = ground arith;
}

-- One place of a positional numeral, for the weights that a time has.
last_place : (c d : ℕ) → IsDigit c → IsDigit d → text_le (c ∷ []) (d ∷ []) ≡ leb (c - 48) (d - 48)
unfolding text_le
last_place c d p q = ground arith

ten_place :
    (c d u v : ℕ)
    → IsDigit c
    → IsDigit d
    → u < 10
    → v < 10
    → (ltb c d || (c == d && leb u v)) ≡ leb ((c - 48) * 10 + u) ((d - 48) * 10 + v)
ten_place c d u v p q a b = ground arith

hour_place :
    (c d u v : ℕ)
    → IsDigit c
    → IsDigit d
    → u < 60
    → v < 60
    → (ltb c d || (c == d && leb u v)) ≡ leb ((c - 48) * 60 + u) ((d - 48) * 60 + v)
hour_place c d u v p q a b = ground arith

ten_hour_place :
    (c d u v : ℕ)
    → IsDigit c
    → IsDigit d
    → u < 600
    → v < 600
    → (ltb c d || (c == d && leb u v)) ≡ leb ((c - 48) * 600 + u) ((d - 48) * 600 + v)
ten_hour_place c d u v p q a b = ground arith

colon_place : (c d : ℕ) (r : Bool) → c ≡ b':' → d ≡ b':' → (ltb c d || (c == d && r)) ≡ r
colon_place c d r p q = ground arith

-- On valid times the order of the texts is the order of the minutes.
text_le-minute :
    (h i c m n h' i' c' m' n' : ℕ)
    → IsTime h i c m n
    → IsTime h' i' c' m' n'
    → text_le (h ∷ i ∷ c ∷ m ∷ n ∷ []) (h' ∷ i' ∷ c' ∷ m' ∷ n' ∷ [])
      ≡ leb (minute (h ∷ i ∷ c ∷ m ∷ n ∷ [])) (minute (h' ∷ i' ∷ c' ∷ m' ∷ n' ∷ []))
unfolding text_le
text_le-minute h i c m n h' i' c' m' n' p q =
    rw
      (
        last_place n n' p.last q.last,
        ten_place m m' (n - 48) (n' - 48) (omega arith) (omega arith) (omega arith) (omega arith),
        colon_place c c' (leb ((m - 48) * 10 + (n - 48)) ((m' - 48) * 10 + (n' - 48))) p.colon
            q.colon,
        hour_place i i' ((m - 48) * 10 + (n - 48)) ((m' - 48) * 10 + (n' - 48)) p.unit q.unit
            (omega arith) (omega arith),
        ten_hour_place h h' ((i - 48) * 60 + ((m - 48) * 10 + (n - 48)))
            ((i' - 48) * 60 + ((m' - 48) * 10 + (n' - 48))) p.hour q.hour (omega arith)
            (omega arith),
      )
      (ap₂ leb (omega arith) (omega arith))

IsTime-shape :
    (t : List ℕ)
    → time_text t ≡ true
    → (h i c m n : ℕ) × (t ≡ h ∷ i ∷ c ∷ m ∷ n ∷ []) × IsTime h i c m n
unfolding time_text
IsTime-shape (h ∷ i ∷ c ∷ m ∷ n ∷ []) e = (h, i, c, m, n, refl, time_text-IsTime h i c m n e)
IsTime-shape _ e = cc

text_le-leb :
    (t u : List ℕ)
    → time_text t ≡ true
    → time_text u ≡ true
    → text_le t u ≡ leb (minute t) (minute u)
text_le-leb t u p q =
    let (h, i, c, m, n, e, v) = IsTime-shape t p in
    let (h', i', c', m', n', e', v') = IsTime-shape u q in
    rw (e, e') (text_le-minute h i c m n h' i' c' m' n' v v')

minute-lt : (t : List ℕ) → time_text t ≡ true → minute t < 1440
minute-lt t p = let (h, i, c, m, n, e, v) = IsTime-shape t p in rw e (omega arith)

abbrev day : ℕ
day = 1440

-- The forward distance around the clock.
abbrev pub since : ℕ → ℕ → ℕ
since s t = (t + day - s) % day

cyclic :
    (t s f : ℕ)
    → t < 1440
    → s < 1440
    → f < 1440
    → ((if leb s f then leb s t && leb t f else leb s t || leb t f) ≡ true)
      ↔ (since s t ≤ since s f)
cyclic t s f p q r = ground arith

-- On valid hh:mm texts, a window contains a time exactly when, going forward from the window's
-- start, the time is reached no later than the window's end: both ends are inside, and a window
-- whose start is later than its end crosses midnight.
pub within_time_window_iff :
    (time start finish : List ℕ)
    → time_text time ≡ true
    → time_text start ≡ true
    → time_text finish ≡ true
    → (within_time_window time start finish ≡ true)
      ↔ (since (minute start) (minute time) ≤ since (minute start) (minute finish))
unfolding within_time_window
within_time_window_iff t s f p q r =
    rw (text_le-leb s f q r, text_le-leb s t q p, text_le-leb t f p r)
      (cyclic (minute t) (minute s) (minute f) (minute-lt t p) (minute-lt s q) (minute-lt f r))
