-- ===== src/Date/Calendar.antt =====
-- The calendar: `days_to_date` gives a date of the calendar, and that date is as many days behind
-- 1 January 1978 as it was given. src/date.rs.
use affs_read.Prelude.{
  ℕ, zero, suc, ◌+◌, ◌-◌, ◌*◌, ◌/◌, ◌%◌, ◌≤◌, ◌<◌, ◌≡◌, refl, Bool, true, false, List, [], ◌∷◌,
  ◌&&◌, arith, ℤ, pos, ◌-ℤ◌, lt_ℤ, ltb, ◌==◌, if◌then◌else◌, Bool-cases, inl, inr, ◌∙◌, ltb→lt,
  length, take, get_or, All, as_u8, ◌+ℤ◌, ap,
}
use affs_read.Date.{
  is_leap_year, days_in_year, next_year, year_loop, days_in_month, month_loop, days_to_date,
}

-- The days of the years from `year` on, n of them.
pub year_days : ℕ → ℕ → ℕ
year_days year zero = 0
year_days year (suc n) = days_in_year year + year_days (year + 1) n

days_in_year_bounds : (year : ℕ) → (365 ≤ days_in_year year) × (days_in_year year ≤ 366)
days_in_year_bounds year = ground arith

-- The loop's years are those that fit into the days, and what is left is less than a year.
record FoundYear (days year : ℕ) (result : ℕ × ℤ) : Type 0 where
  past : ℕ
  left : ℕ
  ends : result ≡ (year + past, pos left)
  sum : year_days year past + left ≡ days
  short : left < days_in_year (year + past)

lt_ℤ-pos : (a b : ℕ) → lt_ℤ (pos a) (pos b) ≡ ltb a b
lt_ℤ-pos a b = ground arith

pos-ℤ : (a b : ℕ) → b ≤ a → pos a -ℤ pos b ≡ pos (a - b)
pos-ℤ a b h = ground arith

next_year-lt : (year : ℕ) → year < 65535 → next_year year ≡ year + 1
next_year-lt year h = omega arith

FoundYear-next :
    (days year : ℕ) (result : ℕ × ℤ)
    → days_in_year year ≤ days
    → FoundYear (days - days_in_year year) (year + 1) result
    → FoundYear days year result
unfolding year_days
FoundYear-next days year result h f =
    let e : year + 1 + f.past ≡ year + suc f.past = omega arith in
    record {
      past = suc f.past;
      left = f.left;
      ends = f.ends ∙ ap (λ (y : ℕ). (y, pos f.left)) e;
      sum = omega (arith, f.sum);
      short = rw (← e) f.short;
    }

year_loop-FoundYear :
    (fuel days year : ℕ)
    → days < fuel
    → days ≤ 365 * (65535 - year)
    → FoundYear days year (year_loop fuel (pos days) year)
unfolding year_loop
year_loop-FoundYear zero days year h fits = absurd (omega arith)
year_loop-FoundYear (suc fuel) days year h fits = elim (Bool-cases (ltb days (days_in_year year))) [
  | inl within ↦
      rw (lt_ℤ-pos days (days_in_year year) ∙ within, year_loop)
        (unfold year_days in
          record {
            past = 0;
            left = days;
            ends = ground arith;
            sum = omega arith;
            short = let e : year + 0 ≡ year = omega arith in rw e (ltb→lt _ _ within);
          })
  | inr beyond ↦
      let long : days_in_year year ≤ days = ground arith in
      rw
        (
          lt_ℤ-pos days (days_in_year year) ∙ beyond,
          pos-ℤ days (days_in_year year) long,
          next_year-lt year (omega (arith, days_in_year_bounds year)),
          year_loop,
        )
        (FoundYear-next days year _ long (
          year_loop-FoundYear fuel (days - days_in_year year) (year + 1)
            (omega (arith, days_in_year_bounds year)) (omega (arith, days_in_year_bounds year))))
]

-- The lengths of the months from index i on.
pub month_lengths : Bool → List ℕ → ℕ → List ℕ
month_lengths leap [] i = []
month_lengths leap (d ∷ rest) i =
    (if i == 1 && leap then 29 else d) ∷ month_lengths leap rest (i + 1)

pub sum : List ℕ → ℕ
sum [] = 0
sum (x ∷ xs) = x + sum xs

-- The month is the one that the days fall in, and what is left is a day of it.
record FoundMonth (lengths : List ℕ) (days month : ℕ) (result : ℕ × ℤ) : Type 0 where
  past : ℕ
  left : ℕ
  ends : result ≡ (month + past, pos left)
  inside : past < length lengths
  whole : sum (take past lengths) + left ≡ days
  short : left < get_or lengths past 0

FoundMonth-next :
    (dim : ℕ) (lengths : List ℕ) (days month : ℕ) (result : ℕ × ℤ)
    → dim ≤ days
    → FoundMonth lengths (days - dim) (month + 1) result
    → FoundMonth (dim ∷ lengths) days month result
unfolding sum
FoundMonth-next dim lengths days month result h f =
    let e : month + 1 + f.past ≡ month + suc f.past = omega arith in
    record {
      past = suc f.past;
      left = f.left;
      ends = f.ends ∙ ap (λ (m : ℕ). (m, pos f.left)) e;
      inside = omega (arith, f.inside);
      whole = omega (arith, f.whole);
      short = f.short;
    }

month_loop-FoundMonth :
    (leap : Bool) (rest : List ℕ) (i days month : ℕ)
    → days < sum (month_lengths leap rest i)
    → FoundMonth (month_lengths leap rest i) days month (month_loop leap rest i (pos days) month)
unfolding month_loop month_lengths sum
month_loop-FoundMonth leap [] i days month h = absurd (omega arith)
month_loop-FoundMonth leap (d ∷ rest) i days month h =
    let dim : ℕ = if i == 1 && leap then 29 else d in
    elim (Bool-cases (ltb days dim)) [
      | inl within ↦
          rw (lt_ℤ-pos days dim ∙ within, month_loop)
            (record {
              past = 0;
              left = days;
              ends = ground arith;
              inside = omega arith;
              whole = omega arith;
              short = ltb→lt _ _ within;
            })
      | inr beyond ↦
          let long : dim ≤ days = ground arith in
          rw (lt_ℤ-pos days dim ∙ beyond, pos-ℤ days dim long, month_loop)
            (FoundMonth-next dim (month_lengths leap rest (i + 1)) days month _ long
              (month_loop-FoundMonth leap rest (i + 1) (days - dim) (month + 1) (omega arith)))
    ]

abbrev pub lengths_of : ℕ → List ℕ
lengths_of year = month_lengths (is_leap_year year) days_in_month 0

year_total : (leap : Bool) → sum (month_lengths leap days_in_month 0) ≡ (if leap then 366 else 365)
unfolding sum month_lengths
year_total true = refl
year_total false = refl

-- The Gregorian calendar, by its own rules: the leap years up to the end of a year, the days from
-- 1 January of the year 1 to that of a year, and the months of a year.
pub leap_years : ℕ → ℕ
leap_years year = year / 4 - year / 100 + year / 400

pub days_before_year : ℕ → ℕ
days_before_year year = 365 * (year - 1) + leap_years (year - 1)

pub february : ℕ → ℕ
february year = 28 + (leap_years year - leap_years (year - 1))

pub months : ℕ → List ℕ
months year = 31 ∷ february year ∷ 31 ∷ 30 ∷ 31 ∷ 30 ∷ 31 ∷ 31 ∷ 30 ∷ 31 ∷ 30 ∷ 31 ∷ []

multiples_of_4 : (year : ℕ) → suc year / 4 ≡ year / 4 + (if suc year % 4 == 0 then 1 else 0)
multiples_of_4 year = ground arith

multiples_of_100 : (year : ℕ) → suc year / 100 ≡ year / 100 + (if suc year % 100 == 0 then 1 else 0)
multiples_of_100 year = ground arith

multiples_of_400 : (year : ℕ) → suc year / 400 ≡ year / 400 + (if suc year % 400 == 0 then 1 else 0)
multiples_of_400 year = ground arith

leap_years-suc :
    (year : ℕ)
    → leap_years (suc year) ≡ leap_years year + (if is_leap_year (suc year) then 1 else 0)
unfolding leap_years is_leap_year
leap_years-suc year =
    ground (arith, multiples_of_4 year, multiples_of_100 year, multiples_of_400 year)

before_next :
    (year : ℕ) → 0 < year → days_before_year (year + 1) ≡ days_before_year year + days_in_year year
unfolding days_before_year
before_next zero h = absurd (omega arith)
before_next (suc year) h =
    let e : suc year + 1 - 1 ≡ suc year = omega arith in
    let e' : suc year - 1 ≡ year = omega arith in rw (e, e') (ground (arith, leap_years-suc year))

year_days-before :
    (year n : ℕ) → 0 < year → days_before_year year + year_days year n ≡ days_before_year (year + n)
unfolding year_days
year_days-before year zero h = let e : year + 0 ≡ year = omega arith in rw e (omega arith)
year_days-before year (suc n) h =
    let e : year + suc n ≡ year + 1 + n = omega arith in
    rw e (omega (arith, before_next year h, year_days-before (year + 1) n (omega arith)))

lengths_with :
    (leap : Bool)
    → month_lengths leap days_in_month 0
      ≡ 31 ∷ (28 + (if leap then 1 else 0)) ∷ 31 ∷ 30 ∷ 31 ∷ 30 ∷ 31 ∷ 31 ∷ 30 ∷ 31 ∷ 30 ∷ 31 ∷ []
unfolding month_lengths
lengths_with true = refl
lengths_with false = refl

february-suc : (year : ℕ) → 28 + (if is_leap_year (suc year) then 1 else 0) ≡ february (suc year)
unfolding february
february-suc year =
    let back : suc year - 1 ≡ year = omega arith in rw back (omega (arith, leap_years-suc year))

lengths_of-months : (year : ℕ) → 0 < year → lengths_of year ≡ months year
unfolding months
lengths_of-months zero h = absurd (omega arith)
lengths_of-months (suc year) h =
    lengths_with (is_leap_year (suc year))
    ∙ ap (λ (d : ℕ). 31 ∷ d ∷ 31 ∷ 30 ∷ 31 ∷ 30 ∷ 31 ∷ 31 ∷ 30 ∷ 31 ∷ 30 ∷ 31 ∷ [])
        (february-suc year)

-- A date of the calendar that is `days` days behind 1 January 1978.
pub record IsDateOf (days year month day : ℕ) : Type 0 where
  pub since : 1978 ≤ year
  pub from_january : 1 ≤ month
  pub to_december : month ≤ 12
  pub from_first : 1 ≤ day
  pub to_last : day ≤ get_or (months year) (month - 1) 0
  pub behind :
      days_before_year year + sum (take (month - 1) (months year)) + (day - 1)
      ≡ days_before_year 1978 + days

lengths_le :
    (leap : Bool) (rest : List ℕ) (i k : ℕ)
    → All (λ d. d ≤ 31) rest
    → get_or (month_lengths leap rest i) k 0 ≤ 31
unfolding month_lengths
lengths_le leap [] i k h = omega arith
lengths_le leap (d ∷ rest) i zero h = ground arith
lengths_le leap (d ∷ rest) i (suc k) h = lengths_le leap rest (i + 1) k h.1

day-as_u8 : (left : ℕ) → left < 31 → as_u8 (pos left +ℤ pos 1) ≡ left + 1
day-as_u8 left h = ground arith

length-month_lengths :
    (leap : Bool) (rest : List ℕ) (i : ℕ) → length (month_lengths leap rest i) ≡ length rest
unfolding month_lengths
length-month_lengths leap [] i = refl
length-month_lengths leap (d ∷ rest) i = ap suc (length-month_lengths leap rest (i + 1))

-- For a day number up to 365 * (65535 - 1978), `days_to_date` gives the date of the Gregorian
-- calendar that is as many days behind 1 January 1978, counted by the number of leap years before
-- it, in which every fourth year counts, but no hundredth except every four hundredth.
pub days_to_date-IsDateOf :
    (days : ℕ)
    → days ≤ 365 * (65535 - 1978)
    → let (year, month, day) = days_to_date (pos days) in IsDateOf days year month day
unfolding days_to_date
days_to_date-IsDateOf days h =
    let found_year = year_loop-FoundYear (suc days) days 1978 (omega arith) h in
    let year = 1978 + found_year.past in
    let found_month =
      month_loop-FoundMonth (is_leap_year year) days_in_month 0 found_year.left 1
        (omega (arith, found_year.short, year_total (is_leap_year year))) in
    let small : found_month.left < 31 = omega (
      arith,
      found_month.short,
      lengths_le (is_leap_year year) days_in_month 0 found_month.past (omega arith),
    ) in
    let twelve : length (lengths_of year) ≡ 12 =
      length-month_lengths (is_leap_year year) days_in_month 0 in
    let spec : lengths_of year ≡ months year = lengths_of-months year (omega arith) in
    let before : 1 + found_month.past - 1 ≡ found_month.past = omega arith in
    rw (found_year.ends, found_month.ends, day-as_u8 found_month.left small)
      (record {
        since = omega arith;
        from_january = omega arith;
        to_december = omega (arith, found_month.inside, twelve);
        from_first = omega arith;
        to_last = rw (before, ← spec) (omega (arith, found_month.short));
        behind =
            rw (before, ← spec)
              (omega (
                arith,
                found_year.sum,
                found_month.whole,
                year_days-before 1978 found_year.past (omega arith),
              ));
      })
