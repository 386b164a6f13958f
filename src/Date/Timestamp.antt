-- ===== src/Date/Timestamp.antt =====
-- Unix timestamps against the decoded time of the day: src/date.rs.
use affs_read.Prelude.{ℕ, ◌+◌, ◌*◌, ◌<◌, ◌≡◌, arith, pos}
use affs_read.Date.{AmigaDate, to_date_time, to_unix_timestamp}

-- For a day on or behind 1 January 1978 and a time of the day, the decoded hour, minute and second
-- are in range, and the timestamp counts the days from 1970 on, the hour, the minute and the
-- second.
pub to_unix_timestamp-to_date_time :
    (days mins ticks : ℕ)
    → mins < 1440
    → ticks < 3000
    → let d : AmigaDate = record { days = pos days; mins = pos mins; ticks = pos ticks } in
      let t = to_date_time d in
      (t.hour < 24)
      × (t.minute < 60)
      × (t.second < 60)
      × (to_unix_timestamp d
          ≡ pos ((((days + 2922) * 24 + t.hour) * 60 + t.minute) * 60 + t.second))
unfolding to_date_time to_unix_timestamp
to_unix_timestamp-to_date_time days mins ticks hm ht =
    (ground arith, ground arith, ground arith, ground arith)
