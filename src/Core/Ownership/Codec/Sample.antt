-- ===== src/Core/Ownership/Codec/Sample.antt =====
-- A clock for runs: a time is printed as the nanoseconds since the zero time, with a zone.
use uawp.Base.{ℕ, ◌+◌, ◌-◌, ◌++◌, [], Option, none, some, Bytes, codes, length, take}
use uawp.Base.Number.{decimal, digits_value}
use uawp.Core.Ownership.{Ownership, Time, zero_instant, active, released}
use uawp.Core.Ownership.Codec.{Clock}

abbrev pub time_of : ℕ → Time
time_of n = record { instant = zero_instant + n; location = 0 }

unfoldable pub print_time : Time → Bytes
unfolding decimal
print_time t = decimal (t.instant - zero_instant) ++ codes "Z"

unfoldable pub read_time : Bytes → Option Time
unfolding digits_value
read_time s = elim (digits_value 0 (take (length s - 1) s)) [
  | none ↦ none
  | some n ↦ some (time_of n)
]

unfoldable pub sample_clock : Clock
unfolding print_time read_time
sample_clock = record {
  parse = read_time;
  format = print_time;
  stamp = λ t. codes "20260101T000000Z";
}

abbrev pub held : Ownership
held = record {
  status = active;
  worker_id = codes "w1";
  session_id = codes "s1";
  generation = 12;
  agent = codes "codex";
  acquired_at = time_of 7;
  released_at = none;
  purpose = codes "work: all of it";
}

-- A fresh workspace's claim.
abbrev pub free : Ownership
free = record {
  status = released;
  worker_id = codes "init";
  session_id = [];
  generation = 0;
  agent = codes "uawp";
  acquired_at = time_of 5;
  released_at = some (time_of 5);
  purpose = codes "Initialize workspace";
}
