-- ===== src/Runtime/Block.antt =====
-- The search for a block of free host ports: `_available_tcp_port_block`.
pub mod Windows
use localcloud_cli.Prelude.{
  ℕ, zero, suc, ◌-◌, Bool, ◌||◌, List, [], ◌∷◌, Option, none, some, all, if◌then◌else◌, Result, ok,
  raise, host_error, alternative_ports_unavailable,
}
use localcloud_cli.Config.Settings.{LocalCloudConfig}
use localcloud_cli.Runtime.Layout.{range}

-- range(start, stop)
pub record PortRange : Type 0 where
  pub start : ℕ
  pub stop : ℕ

abbrev pub fallback_tcp_port_ranges : List PortRange
fallback_tcp_port_ranges =
    record { start = 5508; stop = 5540 }
    ∷ record { start = 5821; stop = 5841 }
    ∷ record { start = 5322; stop = 5343 }
    ∷ []

abbrev pub ranges_of : Option (ℕ × ℕ) → List PortRange
ranges_of none = fallback_tcp_port_ranges
ranges_of (some (start, last)) = record { start = start; stop = suc last } ∷ []

unfoldable pub configured_port_ranges : LocalCloudConfig → List PortRange
configured_port_ranges c = ranges_of c.port_range

-- A host port may be taken if nothing listens on it, or if it is this runtime's own.
module _ (usable : ℕ → Bool) where
  -- The candidates from `start` on, for a number of starts.
  unfoldable pub try_starts : (rounds start count : ℕ) → Option (List ℕ)
  unfolding all range
  try_starts zero start count = none
  try_starts (suc rounds) start count =
      let later = try_starts rounds (suc start) count in
      if all usable (range start count) then some (range start count) else later

  -- `range(start, stop - count + 1)` has this many elements.
  unfoldable pub block_in : (count : ℕ) → PortRange → Option (List ℕ)
  unfolding try_starts
  block_in count r = try_starts (suc r.stop - count - r.start) r.start count

  unfoldable pub available_tcp_port_block : (count : ℕ) → List PortRange → Result (List ℕ)
  unfolding block_in
  available_tcp_port_block count [] = raise (host_error alternative_ports_unavailable)
  available_tcp_port_block count (r ∷ ranges) = elim (block_in count r) [
    | none ↦ available_tcp_port_block count ranges
    | some ports ↦ ok ports
  ]
