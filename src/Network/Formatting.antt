-- ===== src/Network/Formatting.antt =====
-- src/network/utils/NetworkUtils.cpp: `formatBytes` and `formatRate`. The arithmetic of `double` and
-- its print with one digit behind the point are the compiler's and the C++ library's: an interface.
pub mod Laws
mod Tests
use data_exfiltration_detect.Common.{
  ℕ, zero, suc, ◌+◌, ◌-◌, List, [], ◌∷◌, ◌++◌, Bool, true, false, ltb, if◌then◌else◌, is_empty,
}
use data_exfiltration_detect.Common.Text.{Text, codes, to_decimal}
use data_exfiltration_detect.Network.Floats.{Floats}
use data_exfiltration_detect.Network.NetworkUtils.Addresses.{has_remote_port}

pub record Printing (Double : Type 0) : Type 0 where
  pub floats : Floats Double
  -- `1024.0`.
  pub kibi : Double
  pub less : Double → Double → Bool
  pub greater_equal : Double → Double → Bool
  -- `out.setf(std::ios::fixed); out.precision(1); out << value`.
  pub print : Double → Text

-- The elements of `units`, with what `formatRate` adds to each.
abbrev unit_name : ℕ → Text
unit_name zero = codes "KB"
unit_name (suc zero) = codes "MB"
unit_name (suc (suc zero)) = codes "GB"
unit_name (suc (suc (suc n))) = codes "TB"

-- A value with the index of its unit.
pub record Scaled (Double : Type 0) : Type 0 where
  pub value : Double
  pub unit : ℕ

module _ {Double : Type 0} (p : Printing Double) where
  -- `while (value >= 1024.0 && unit < 3) { value /= 1024.0; ++unit; }`, with the rounds left until
  -- the unit is 3 as fuel.
  unfoldable pub scale_loop : ℕ → Scaled Double → Scaled Double
  scale_loop zero s = s
  scale_loop (suc rounds) s =
      let next =
        scale_loop rounds (record { value = p.floats.divide s.value p.kibi; unit = s.unit + 1 }) in
      if p.greater_equal s.value p.kibi then next else s

  unfoldable pub scale : Double → Scaled Double
  unfolding scale_loop
  scale value = scale_loop 3 (record { value = value; unit = 0 })

  unfoldable pub format_bytes : ℕ → Text
  unfolding scale to_decimal
  format_bytes bytes =
      let s = scale (p.floats.divide (p.floats.of_bytes bytes) p.kibi) in
      if ltb bytes 1024
      then to_decimal bytes ++ codes " B"
      else p.print s.value ++ (codes " " ++ unit_name s.unit)

  unfoldable pub format_rate : Double → Text
  unfolding scale
  format_rate bytes_per_second =
      let rate =
        if p.less bytes_per_second p.floats.zero then p.floats.zero else bytes_per_second in
      let s = scale (p.floats.divide rate p.kibi) in
      if p.less rate p.kibi
      then p.print rate ++ codes " B/s"
      else p.print s.value ++ (codes " " ++ (unit_name s.unit ++ codes "/s"))

-- `processName.empty() ? "Unknown" : processName`.
unfoldable pub name_or_unknown : Text → Text
name_or_unknown process_name = if is_empty process_name then codes "Unknown" else process_name

-- `out << remoteAddress; if (hasRemotePort(remotePort)) out << ":" << remotePort;`
unfoldable pub with_port : Text → ℕ → Text
unfolding has_remote_port to_decimal
with_port remote_address remote_port =
    if has_remote_port remote_port
    then remote_address ++ (codes ":" ++ to_decimal remote_port)
    else remote_address
