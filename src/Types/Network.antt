-- ===== src/Types/Network.antt =====
-- internal/types/network.go: the handoff from a network provider to a VMM.
pub mod Indices
use kuma_box.Prelude.{
  ℕ, suc, ◌+◌, ◌%◌, Bool, true, false, not, ◌&&◌, ◌||◌, Option, none, some, List, [], ◌∷◌, ◌++◌,
  ◌==◌, if◌then◌else◌, any_of, Text, text, text_eq, is_empty, ℤ, pos, negsuc, lt_int, eq_int,
}
use kuma_box.Errdefs.{Result, ok, err, plain, ◌>>=◌, ◌>>◌, refuse_if}
use kuma_box.Types.Text.{itoa, is_absolute}

-- The address parsers of package net: whether net.ParseIP(s).To4() is not nil, and whether
-- net.ParseMAC accepts s.
pub record Parsers : Type 0 where
  pub is_ipv4 : Text → Bool
  pub is_mac : Text → Bool

-- NetworkBackend; `unset` is the empty string.
pub data Backend : Type 0 where
  unset cni bridge ebpf : Backend
  unsupported : Text → Backend

abbrev pub backend_eq : Backend → Backend → Bool
backend_eq unset unset = true
backend_eq cni cni = true
backend_eq bridge bridge = true
backend_eq ebpf ebpf = true
backend_eq (unsupported s) (unsupported t) = text_eq s t
backend_eq _ _ = false

unfoldable pub validate_backend : Backend → Result (Unit {0})
validate_backend cni = ok tt
validate_backend bridge = ok tt
validate_backend ebpf = ok tt
validate_backend _ = err plain

-- AddressMode; `dynamic` is the empty string.
pub data AddressMode : Type 0 where
  dynamic fixed : AddressMode
  other_mode : Text → AddressMode

abbrev pub is_fixed : AddressMode → Bool
is_fixed fixed = true
is_fixed _ = false

abbrev pub is_dynamic : AddressMode → Bool
is_dynamic dynamic = true
is_dynamic _ = false

pub record Ipv4Config : Type 0 where
  pub address : Text
  pub gateway : Text
  pub prefix : ℤ

unfoldable pub validate_ipv4 : Parsers → Ipv4Config → Result (Unit {0})
validate_ipv4 p c = do
  refuse_if (not (p.is_ipv4 c.address)) plain
  refuse_if (lt_int c.prefix (pos 0) || lt_int (pos 32) c.prefix) plain
  refuse_if (not (is_empty c.gateway) && not (p.is_ipv4 c.gateway)) plain
  ok tt

pub record NetworkInterface : Type 0 where
  pub index : ℤ
  pub name : Text
  pub tap : Text
  pub mac : Text
  pub queues : ℤ
  pub queue_size : ℤ
  pub network : Text
  pub ipv4 : Option Ipv4Config
  pub address_mode : AddressMode
  pub host_address : Text

abbrev is_odd : ℤ → Bool
is_odd (pos n) = n % 2 == 1
is_odd (negsuc n) = n % 2 == 0

abbrev validate_ipv4_option : Parsers → Option Ipv4Config → Result (Unit {0})
validate_ipv4_option p none = ok tt
validate_ipv4_option p (some c) = validate_ipv4 p c

-- The guest and the host address of a fixed interface are two IPv4 addresses.
abbrev has_distinct_host : Parsers → Option Ipv4Config → Text → Bool
has_distinct_host p none host = false
has_distinct_host p (some c) host = p.is_ipv4 host && not (text_eq host c.address)

unfoldable pub validate_interface : Parsers → NetworkInterface → Result (Unit {0})
unfolding validate_ipv4 itoa
validate_interface p c = do
  refuse_if (lt_int c.index (pos 0)) plain
  refuse_if (not (text_eq c.name (text "eth" ++ itoa c.index))) plain
  refuse_if (is_empty c.tap || is_empty c.network) plain
  refuse_if (not (p.is_mac c.mac)) plain
  refuse_if (lt_int c.queues (pos 2) || is_odd c.queues || not (lt_int (pos 0) c.queue_size)) plain
  validate_ipv4_option p c.ipv4
  refuse_if (not (is_dynamic c.address_mode) && not (is_fixed c.address_mode)) plain
  if is_fixed c.address_mode
      then refuse_if (not (has_distinct_host p c.ipv4 c.host_address)) plain
      else refuse_if (not (is_empty c.host_address)) plain

pub record NetworkSetup : Type 0 where
  pub backend : Backend
  pub namespace : Text
  pub interfaces : List NetworkInterface

abbrev pub no_network : NetworkSetup
no_network = record { backend = unset; namespace = []; interfaces = [] }

-- The loop over the interfaces, with the indices seen, the previous index and the position.
unfoldable pub validate_interfaces :
    Parsers → Bool → List ℤ → ℤ → ℕ → List NetworkInterface → Result (Unit {0})
validate_interfaces p is_ebpf seen previous position [] = ok tt
validate_interfaces p is_ebpf seen previous position (c ∷ cs) =
    let rest = validate_interfaces p is_ebpf (c.index ∷ seen) c.index (suc position) cs in
    do
      refuse_if (if is_ebpf then not (is_fixed c.address_mode) else is_fixed c.address_mode) plain
      validate_interface p c
      refuse_if (any_of (eq_int c.index) seen) plain
      refuse_if (not (lt_int previous c.index)) plain
      refuse_if (not (eq_int c.index (pos position))) plain
      rest

abbrev pub is_nil {ℓ} : {A : Type ℓ} → List A → Bool
is_nil [] = true
is_nil (x ∷ xs) = false

abbrev has_host_taps : Backend → Bool
has_host_taps bridge = true
has_host_taps ebpf = true
has_host_taps _ = false

unfoldable pub validate_setup : Parsers → NetworkSetup → Result (Unit {0})
unfolding validate_backend
validate_setup p s =
    if backend_eq s.backend unset
    then refuse_if (not (is_empty s.namespace) || not (is_nil s.interfaces)) plain
    else do
      validate_backend s.backend
      refuse_if
          (if has_host_taps s.backend
            then not (is_empty s.namespace)
            else not (is_absolute s.namespace))
          plain
      validate_interfaces p (backend_eq s.backend ebpf) [] (negsuc 0) 0 s.interfaces
