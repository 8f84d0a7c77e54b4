-- ===== src/Network/Types.antt =====
-- The data of src/network/models and src/network/events. Ports, process ids and byte counters are
-- numbers; a time point is its count of clock ticks since the epoch, so that the default time point
-- is 0.
use data_exfiltration_detect.Common.{ℕ, ◌≡◌, ◌↔◌, ◌∷◌, ◌++◌, arith}
use data_exfiltration_detect.Common.Text.{
  Text, Lacks, to_decimal, to_decimal_injective, to_decimal-Lacks, field_split,
}

pub data ProtocolType : Type 0 where
  tcp udp unknown : ProtocolType

pub data ConnectionState : Type 0 where
  listening established time_wait close_wait closed unknown : ConnectionState

pub data AddressFamily : Type 0 where
  ipv4 ipv6 unknown : AddressFamily

pub record Connection : Type 0 where
  pub process_id : ℕ
  pub local_address : Text
  pub local_port : ℕ
  pub remote_address : Text
  pub remote_port : ℕ
  pub protocol : ProtocolType
  pub state : ConnectionState
  pub timestamp : ℕ

pub data ConnectionEventType : Type 0 where
  created closed : ConnectionEventType

pub record ConnectionEvent : Type 0 where
  pub type : ConnectionEventType
  pub connection : Connection
  pub timestamp : ℕ

pub record ConnectionTransferSnapshot : Type 0 where
  pub connection : Connection
  pub bytes_sent : ℕ
  pub bytes_received : ℕ
  pub process_name : Text

-- `static_cast<int>(protocol)`.
unfoldable pub protocol_index : ProtocolType → ℕ
protocol_index tcp = 0
protocol_index udp = 1
protocol_index ProtocolType.unknown = 2

-- The key that every tracker of connections computes: protocol, process id and the 4-tuple, joined
-- by `|`.
unfoldable pub make_key : Connection → Text
unfolding protocol_index to_decimal
make_key c =
    to_decimal (protocol_index c.protocol)
    ++ b'|'
      ∷ (to_decimal c.process_id
          ++ b'|'
            ∷ (c.local_address
                ++ b'|'
                  ∷ (to_decimal c.local_port
                      ++ b'|' ∷ (c.remote_address ++ b'|' ∷ to_decimal c.remote_port))))

-- Neither address holds the separator; no printed IP address does.
abbrev pub HasPlainAddresses : Connection → Type 0
HasPlainAddresses c = Lacks b'|' c.local_address × Lacks b'|' c.remote_address

-- The fields by which two rows are one connection.
abbrev pub SameIdentity : Connection → Connection → Type 0
SameIdentity c d =
    (c.protocol ≡ d.protocol)
    × (c.process_id ≡ d.process_id)
    × (c.local_address ≡ d.local_address)
    × (c.local_port ≡ d.local_port)
    × (c.remote_address ≡ d.remote_address)
    × (c.remote_port ≡ d.remote_port)

protocol_index_injective : (p q : ProtocolType) → protocol_index p ≡ protocol_index q → p ≡ q
unfolding protocol_index
protocol_index_injective p q h = ground arith

decimal_split :
    (m n : ℕ) (a b : Text) → to_decimal m ++ b'|' ∷ a ≡ to_decimal n ++ b'|' ∷ b → (m ≡ n) × (a ≡ b)
decimal_split m n a b e =
    let s =
      field_split b'|' (to_decimal m) (to_decimal n) a b (to_decimal-Lacks m) (to_decimal-Lacks n)
        e in
    (to_decimal_injective m n s.0, s.1)

-- Two connections whose addresses hold no separator have the same key exactly when they agree in
-- protocol, process and 4-tuple.
pub make_key-eq_iff :
    (c d : Connection)
    → HasPlainAddresses c
    → HasPlainAddresses d
    → (make_key c ≡ make_key d) ↔ SameIdentity c d
unfolding make_key
make_key-eq_iff c d hc hd = (
  λ e.
      let s1 = decimal_split (protocol_index c.protocol) (protocol_index d.protocol) _ _ e in
      let s2 = decimal_split c.process_id d.process_id _ _ s1.1 in
      let s3 = field_split b'|' c.local_address d.local_address _ _ hc.0 hd.0 s2.1 in
      let s4 = decimal_split c.local_port d.local_port _ _ s3.1 in
      let s5 = field_split b'|' c.remote_address d.remote_address _ _ hc.1 hd.1 s4.1 in
      (
        protocol_index_injective c.protocol d.protocol s1.0,
        s2.0,
        s3.0,
        s4.0,
        s5.0,
        to_decimal_injective c.remote_port d.remote_port s5.1,
      ),
  λ (p, q, r, s, t, u). rw (p, q, r, s, t, u),
)

-- The key determines the process, whatever the addresses hold.
pub make_key-process_id : (c d : Connection) → make_key c ≡ make_key d → c.process_id ≡ d.process_id
unfolding make_key
make_key-process_id c d e =
    let s1 = decimal_split (protocol_index c.protocol) (protocol_index d.protocol) _ _ e in
    (decimal_split c.process_id d.process_id _ _ s1.1).0
