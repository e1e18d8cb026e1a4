-- ===== src/Client/Ids.antt =====
-- pkg/qmi/client.go, SendRequest: transaction identifiers and the keys of the transaction table.
use quectel_qmi_go.Common.{
  ℕ, zero, suc, ◌+◌, ◌-◌, ◌*◌, ◌%◌, ◌≤◌, ◌<◌, ◌≡◌, ◌≢◌, if◌then◌else◌, ◌==◌, IsU16, arith,
}
use quectel_qmi_go.Wire.Packet.{service_control}

-- atomic.AddUint32(counter, 1)
abbrev pub add_uint32 : ℕ → ℕ
add_uint32 n = (n + 1) % 4294967296

-- The transaction identifier that is taken from a counter, and the counter after that: the low bits
-- of the next value, or of the one behind it where those are zero.
unfoldable pub take_id : ℕ → ℕ → ℕ × ℕ
take_id range counter =
    let n = add_uint32 counter in
    let m = add_uint32 n in if n % range == 0 then (m % range, m) else (n % range, n)

pub record Counters : Type 0 where
  pub last_tx_id : ℕ
  pub ctl_tx_id : ℕ

-- uint16(... & 0xFF) for the control service, uint16(... & 0xFFFF) for the others.
unfoldable pub allocate_tx_id : Counters → ℕ → ℕ × Counters
allocate_tx_id c service =
    if service == service_control
    then (let (tx, n) = take_id 256 c.ctl_tx_id in (tx, record c { ctl_tx_id = n }))
    else (let (tx, n) = take_id 65536 c.last_tx_id in (tx, record c { last_tx_id = n }))

-- uint32(service)<<16 | uint32(txID), where txID has 16 bits.
unfoldable pub transaction_key : ℕ → ℕ → ℕ
transaction_key service tx_id = service * 65536 + tx_id

-- One key for each service and identifier.
pub transaction_key-injective :
    (s t x y : ℕ)
    → IsU16 x
    → IsU16 y
    → transaction_key s x ≡ transaction_key t y
    → (s ≡ t) × (x ≡ y)
unfolding transaction_key
transaction_key-injective s t x y hx hy e = omega arith

-- What follows the identifier `t`: 1 comes after the last.
abbrev pub next_id : ℕ → ℕ → ℕ
next_id range t = if t + 1 == range then 1 else t + 1

-- Both ranges divide 2 ^ 32, so the counter's wrap does not show.
take_id_ctl :
    (c : ℕ)
    → ((take_id 256 c).0 ≡ next_id 256 (c % 256)) × ((take_id 256 c).1 % 256 ≡ (take_id 256 c).0)
unfolding take_id
take_id_ctl c = ground arith

take_id_service :
    (c : ℕ)
    → ((take_id 65536 c).0 ≡ next_id 65536 (c % 65536))
      × ((take_id 65536 c).1 % 65536 ≡ (take_id 65536 c).0)
unfolding take_id
take_id_service c = ground arith

-- The identifiers that successive requests to one service take.
unfoldable pub nth_tx_id : ℕ → ℕ → Counters → ℕ
nth_tx_id zero service c = (allocate_tx_id c service).0
nth_tx_id (suc k) service c = nth_tx_id k service (allocate_tx_id c service).1

-- How many identifiers there are before they repeat.
abbrev pub id_count : ℕ → ℕ
id_count service = if service == service_control then 255 else 65535

abbrev counter_of : ℕ → Counters → ℕ
counter_of service c = if service == service_control then c.ctl_tx_id else c.last_tx_id

-- One allocation: the identifier is one of the count, and the next one follows it in the cycle.
allocate_step :
    (c : Counters) (service : ℕ)
    → (1 ≤ (allocate_tx_id c service).0)
      × ((allocate_tx_id c service).0 ≤ id_count service)
      × ((allocate_tx_id (allocate_tx_id c service).1 service).0
          ≡ (allocate_tx_id c service).0 % id_count service + 1)
unfolding allocate_tx_id
allocate_step c service = ground (
  arith,
  take_id_ctl c.ctl_tx_id,
  take_id_ctl (take_id 256 c.ctl_tx_id).1,
  take_id_service c.last_tx_id,
  take_id_service (take_id 65536 c.last_tx_id).1,
)

nth_tx_id-cycle :
    (k service : ℕ) (c : Counters)
    → nth_tx_id k service c ≡ ((allocate_tx_id c service).0 + k - 1) % id_count service + 1
unfolding nth_tx_id
nth_tx_id-cycle zero service c = ground (arith, allocate_step c service)
nth_tx_id-cycle (suc k) service c =
    ground (arith, allocate_step c service, nth_tx_id-cycle k service (allocate_tx_id c service).1)

-- The identifier of any request is at least 1 and fits its width: 8 bits for the control service, 16
-- for the others. Fewer than 255 requests to the control service, or fewer than 65535 to the others,
-- never meet the same identifier twice.
pub nth_tx_id_fresh :
    (service : ℕ) (c : Counters) (i j : ℕ)
    → i < j
    → j < i + id_count service
    → (1 ≤ nth_tx_id i service c)
      × (nth_tx_id i service c ≤ id_count service)
      × (nth_tx_id i service c ≢ nth_tx_id j service c)
nth_tx_id_fresh service c i j h k =
    ground
      (arith, allocate_step c service, nth_tx_id-cycle i service c, nth_tx_id-cycle j service c)
