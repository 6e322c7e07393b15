-- ===== src/Ros/Time.antt =====
-- rclpy's `Time` and `Duration`, in nanoseconds. A time is never negative; a duration may be.
use huma_ware.Common.{ℕ, ◌+◌, ◌*◌, ◌<◌, ◌≡◌, Bool, arith}
use huma_ware.Common.Int.{
  ℤ, pos, negsuc, pos_part, neg_part, sub_ℕ, ltb_ℤ, leb_ℤ, floor_div, floor_mod,
}

abbrev pub Time : Type 0
Time = ℕ

abbrev pub Duration : Type 0
Duration = ℤ

-- now - then
abbrev pub since : Time → Time → Duration
since now then_at = sub_ℕ now then_at

-- now - then > timeout
abbrev pub older_than : Time → Time → Duration → Bool
older_than now then_at timeout = ltb_ℤ timeout (since now then_at)

-- now - then <= timeout
abbrev pub is_within : Time → Time → Duration → Bool
is_within now then_at timeout = leb_ℤ (since now then_at) timeout

-- builtin_interfaces/Duration
pub record DurationMsg : Type 0 where
  pub sec : ℤ
  pub nanosec : ℕ

abbrev pub billion : ℕ
billion = 1_000_000_000

-- The total that a duration message stands for, split by the sign of its seconds.
abbrev pub TotalIs : DurationMsg → Duration → Type 0
TotalIs m d =
    pos_part m.sec * billion + m.nanosec + neg_part d ≡ pos_part d + neg_part m.sec * billion

pub floor_div-mod :
    (d : Duration)
    → let m : DurationMsg = record { sec = floor_div d billion; nanosec = floor_mod d billion } in
      TotalIs m d × (m.nanosec < billion)
unfolding floor_div floor_mod
floor_div-mod (pos n) = (omega arith, omega arith)
floor_div-mod (negsuc n) = (omega arith, omega arith)
