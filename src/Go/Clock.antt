-- ===== src/Go/Clock.antt =====
-- The instant that time.Now().UTC() yields, by its calendar fields, and the text that the layout
-- "20060102-150405.000" gives it (a year of at most four digits).
use clipbeam_cli.Prelude.{ℕ, ◌+◌, ◌/◌, ◌%◌, [], ◌∷◌, ◌++◌, ◌≡◌, refl, Bytes, codes}

pub record Time : Type 0 where
  pub year : ℕ
  pub month : ℕ
  pub day : ℕ
  pub hour : ℕ
  pub minute : ℕ
  pub second : ℕ
  pub milli : ℕ

abbrev pub digit : ℕ → ℕ
digit n = b'0' + n % 10

abbrev two : ℕ → Bytes
two n = digit (n / 10) ∷ digit n ∷ []

unfoldable pub format : Time → Bytes
format t =
    digit (t.year / 1000) ∷ digit (t.year / 100) ∷ two t.year
    ++ two t.month
    ++ two t.day
    ++ b'-' ∷ two t.hour
    ++ two t.minute
    ++ two t.second
    ++ b'.' ∷ digit (t.milli / 100) ∷ two t.milli

abbrev pub sample_time : Time
sample_time = record {
  year = 2026;
  month = 3;
  day = 9;
  hour = 14;
  minute = 5;
  second = 7;
  milli = 42;
}

format_sample : format sample_time ≡ codes "20260309-140507.042"
unfolding format
format_sample = refl
