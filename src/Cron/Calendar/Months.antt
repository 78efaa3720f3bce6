-- ===== src/Cron/Calendar/Months.antt =====
-- The laws of the calendar: a day lies in the month that the walk finds, and in no other.
use jobx.Prelude.{
  ℕ, zero, suc, ◌+◌, ◌-◌, ◌*◌, ◌≤◌, ◌<◌, ◌≡◌, refl, ap, arith, ltb, Bool-cases, inl, inr,
}
use jobx.Cron.Calendar.{
  is_leap, days_in_month, month_length, month_start, month_walk, civil, day_number,
}

pub month_length-pos : (i : ℕ) → 28 ≤ month_length i
unfolding month_length days_in_month is_leap
month_length-pos i = ground arith

pub month_start-suc : (i : ℕ) → month_start (suc i) ≡ month_start i + month_length i
unfolding month_start
month_start-suc i = refl

-- Later months start later.
pub month_start_mono : (i k : ℕ) → month_start i ≤ month_start (i + k)
month_start_mono i zero = omega (arith, ap month_start (let p : i + 0 ≡ i = omega arith in p))
month_start_mono i (suc k) =
    let e : i + suc k ≡ suc (i + k) = omega arith in
    omega (arith, ap month_start e, month_start-suc (i + k), month_start_mono i k)

-- No month is shorter than 28 days.
pub month_start_far : (i k : ℕ) → month_start i + 28 * k ≤ month_start (i + k)
month_start_far i zero = omega (arith, ap month_start (let p : i + 0 ≡ i = omega arith in p))
month_start_far i (suc k) =
    let e : i + suc k ≡ suc (i + k) = omega arith in
    omega (
      arith,
      ap month_start e,
      month_start-suc (i + k),
      month_start_far i k,
      month_length-pos (i + k),
    )

pub month_start-le : (i j : ℕ) → i ≤ j → month_start i ≤ month_start j
month_start-le i j h =
    let e : i + (j - i) ≡ j = omega arith in
    omega (arith, ap month_start e, month_start_mono i (j - i))

-- The month of index `i` has the day `n`.
pub record Holds (i n : ℕ) : Type 0 where
  pub low : month_start i ≤ n
  pub high : n < month_start i + month_length i

-- A day lies in one month only.
pub Holds-unique : (i j n k : ℕ) → Holds i n → n ≤ k → k < month_start (suc i) → Holds j k → i ≡ j
Holds-unique i j n k h le lt h' = elim (Bool-cases (ltb i j)) [
  | inl less ↦
      let after : month_start (suc i) ≤ month_start j = month_start-le (suc i) j (ground arith) in
      absurd (omega (arith, after, lt, h'.low))
  | inr not_less ↦ elim (Bool-cases (ltb j i)) [
    | inl more ↦
        let before : month_start (suc j) ≤ month_start i =
          month_start-le (suc j) i (ground arith) in
        absurd (omega (arith, before, month_start-suc j, h.low, h'.high, le))
    | inr not_more ↦ ground arith
  ]
]

walk-Holds :
    (fuel i n : ℕ)
    → n ≤ fuel
    → (month_start (month_walk fuel i n).0 + (month_walk fuel i n).1 ≡ month_start i + n)
      × ((month_walk fuel i n).1 < month_length (month_walk fuel i n).0)
unfolding month_walk
walk-Holds zero i n h = (refl, omega (arith, month_length-pos i))
walk-Holds (suc fuel) i n h = elim (Bool-cases (ltb n (month_length i))) [
  | inl here ↦ rw (here, month_walk) (refl, ground arith)
  | inr later ↦
      let beyond : month_length i ≤ n = ground arith in
      let (sum, inside) =
        walk-Holds fuel (suc i) (n - month_length i) (omega (arith, month_length-pos i)) in
      rw (later, month_walk) (omega (arith, sum, month_start-suc i), inside)
]

-- The index of the month in which a day lies.
pub month_index : ℕ → ℕ
month_index n = (month_walk n 0 n).0

pub month_index-Holds : (n : ℕ) → Holds (month_index n) n
unfolding month_index month_start
month_index-Holds n =
    let (sum, inside) = walk-Holds n 0 n (omega arith) in
    record { low = omega (arith, sum); high = omega (arith, sum, inside) }

pub civil-index :
    (n : ℕ)
    → (12 * (civil n).year + ((civil n).month - 1) ≡ month_index n)
      × (1 ≤ (civil n).month)
      × ((civil n).month ≤ 12)
      × (1 ≤ (civil n).day)
      × (month_start (month_index n) + ((civil n).day - 1) ≡ n)
unfolding civil month_index month_start
civil-index n =
    let (sum, inside) = walk-Holds n 0 n (omega arith) in
    (omega arith, omega arith, omega arith, omega arith, omega (arith, sum))

-- Days that lie in one month have the same month.
pub civil-month : (n k : ℕ) → month_index n ≡ month_index k → (civil k).month ≡ (civil n).month
unfolding civil month_index
civil-month n k e = omega (arith, e)

-- `time.Date` on the date of a day, with some days more, gives the day so many days later.
pub day_number-civil :
    (n k : ℕ) → day_number (civil n).year (civil n).month ((civil n).day + k) ≡ n + k
unfolding day_number
day_number-civil n k =
    let (index, low, high, day, sum) = civil-index n in
    omega (arith, ap month_start index, day, sum)

-- `time.Date` on the month after that of a day gives the start of the next month.
pub day_number-next :
    (n : ℕ) → day_number (civil n).year ((civil n).month + 1) 1 ≡ month_start (suc (month_index n))
unfolding day_number
day_number-next n =
    let (index, low, high, day, sum) = civil-index n in
    let e : 12 * (civil n).year + ((civil n).month + 1 - 1) ≡ suc (month_index n) =
      omega (arith, index, low) in
    omega (arith, ap month_start e)
