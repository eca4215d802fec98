-- ===== src/Host/Files.antt =====
-- host_sysinfo_utils.go and host_sysinfo_provider.go: open files, memory and the network.
use aerospike_prometheus_exp.Base.{
  ℕ, Bool, true, false, ◌||◌, List, [], ◌∷◌, ◌++◌, Option, none, some, Bytes, bytes, Map, insert,
  split, to_lower, contains, init, is_empty, length, ◌==◌, Go, ok, panic, ◌>>=◌, index, for_each,
  if◌then◌else◌,
}
use aerospike_prometheus_exp.Env.{Env}

-- What github.com/prometheus/procfs returns of /proc/meminfo, in kilobytes.
pub record MemInfo : Type 0 where
  pub shmem : Option ℕ
  pub swap_cached : Option ℕ
  pub mem_total : Option ℕ

-- The host: the lines of a file below /proc, `none` where it does not open; procfs, `none` for
-- its errors, with the bytes received and sent by device; and fmt.Sprint of a float64.
pub record Host (F : Type 0) : Type 0 where
  pub read_lines : Bytes → Option (List Bytes)
  pub mem_info : Option MemInfo
  pub net_dev : Option (Map (ℕ × ℕ))
  pub print_float : F → Bytes

unfoldable pub get_file_fd : Option (List Bytes) → Go (Map Bytes)
get_file_fd none = ok []
get_file_fd (some lines) =
    for_each (λ line m. index (split b'\t' line) 0 >>= λ v. ok (insert (bytes "allocated") v m))
      lines []

-- The pattern `tcp_(activeopens|retranssegs|currestab)`
unfoldable pub accept_netstat : Bytes → Bool
accept_netstat name =
    contains name (bytes "tcp_activeopens")
    || (contains name (bytes "tcp_retranssegs") || contains name (bytes "tcp_currestab"))

-- The rest of a pair of lines, name by name.
abbrev net_values : Bytes → List Bytes → List Bytes → Map Bytes → Map Bytes
net_values protocol [] values m = m
net_values protocol (name ∷ names) [] m = m
net_values protocol (name ∷ names) (v ∷ values) m =
    let key = to_lower (protocol ++ (bytes "_" ++ name)) in
    let taken = net_values protocol names values (insert key v m) in
    let left = net_values protocol names values m in if accept_netstat key then taken else left

-- A line of names and one of values; the names begin with the protocol and a colon, without which
-- the slice panics. `false` is the return where they are not as many.
unfoldable pub net_pair : List Bytes → List Bytes → Map Bytes → Go (Bool × Map Bytes)
unfolding accept_netstat
net_pair [] values m = panic
net_pair (first ∷ names) [] m = if is_empty first then panic else ok (false, m)
net_pair (first ∷ names) (v ∷ values) m =
    if is_empty first
    then panic
    else if length names == length values
    then ok (true, net_values (init first) names values m)
    else ok (false, m)

abbrev go_on : (Map Bytes → Go (Map Bytes)) → Bool × Map Bytes → Go (Map Bytes)
go_on k (true, m) = k m
go_on k (false, m) = ok m

-- After the last line a further one reads as empty.
abbrev net_lines : List Bytes → Map Bytes → Go (Map Bytes)
net_lines [] m = ok m
net_lines (names ∷ []) m = net_pair (split b' ' names) ([] ∷ []) m >>= go_on (λ m'. ok m')
net_lines (names ∷ values ∷ lines) m =
    net_pair (split b' ' names) (split b' ' values) m >>= go_on (net_lines lines)

unfoldable pub parse_net_stats : Option (List Bytes) → Go (Map Bytes)
unfolding net_pair
parse_net_stats none = ok []
parse_net_stats (some lines) = net_lines lines []

module _ (env : Env) (host : Host (env.Float)) where
  open env use {Float, of_nat, mul, range}
  open host use {mem_info, net_dev, print_float}

  abbrev get_float_value : Option ℕ → Float
  get_float_value none = of_nat 0
  get_float_value (some v) = of_nat v

  abbrev in_bytes : Option ℕ → Bytes
  in_bytes v = print_float (mul (get_float_value v) (of_nat 1024))

  unfoldable pub get_mem_info_stats : Map Bytes
  get_mem_info_stats = elim mem_info [
    | none ↦ []
    | some m ↦
        (bytes "Shmem", in_bytes m.shmem)
        ∷ (bytes "Swap_Cached", in_bytes m.swap_cached)
        ∷ (bytes "MemTotal", in_bytes m.mem_total)
        ∷ []
  ]

  abbrev dev_stats : (ℕ × ℕ → ℕ) → Bytes → Map (ℕ × ℕ) → List (Map Bytes)
  dev_stats of name [] = []
  dev_stats of name ((device, counts) ∷ m) =
      ((bytes "device_name", device) ∷ (name, print_float (of_nat (of counts))) ∷ [])
      ∷ dev_stats of name m

  -- What the devices received, and what they sent.
  unfoldable pub get_net_dev_stats : List (Map Bytes) × List (Map Bytes)
  get_net_dev_stats = elim net_dev [
    | none ↦ ([], [])
    | some m ↦
        let devices = range (ℕ × ℕ) m in
        (
          dev_stats (λ c. c.0) (bytes "receive_bytes_total") devices,
          dev_stats (λ c. c.1) (bytes "transfer_bytes_total") devices,
        )
  ]
