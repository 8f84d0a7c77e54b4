-- ===== src/Network/Formatting/Tests.antt =====
-- Byte counts in whole units.
use data_exfiltration_detect.Common.{ℕ, ◌≡◌, refl, ltb, leb}
use data_exfiltration_detect.Common.Text.{codes, to_decimal}
use data_exfiltration_detect.Network.Floats.{whole_floats}
use data_exfiltration_detect.Network.Formatting.{Printing, scale, format_bytes, format_rate}
use data_exfiltration_detect.Network.Formatting.Laws.{IsScaled, scale-IsScaled}

abbrev whole_printing : Printing ℕ
unfolding to_decimal
whole_printing = record {
  floats = whole_floats;
  kibi = 1024;
  less = λ a b. ltb a b;
  greater_equal = λ a b. leb b a;
  print = to_decimal;
}

formats :
    (format_bytes whole_printing 1023 ≡ codes "1023 B")
    × (format_bytes whole_printing 5000 ≡ codes "4 KB")
    × (format_bytes whole_printing 3145728 ≡ codes "3 MB")
    × (format_rate whole_printing 500 ≡ codes "500 B/s")
    × (format_rate whole_printing 2048 ≡ codes "2 KB/s")
unfolding format_bytes format_rate whole_printing
formats = (refl, refl, refl, refl, refl)

scale-IsScaled_example :
    IsScaled whole_printing 3
      (record { value = 5000000; unit = 0 })
      (scale whole_printing 5000000)
      (scale whole_printing 5000000).unit
scale-IsScaled_example = scale-IsScaled whole_printing 5000000
