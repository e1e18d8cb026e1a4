-- ===== src/Client/Recent.antt =====
-- pkg/qmi/client.go: the memory of requests that ended by their context, which tells a late response
-- from an unknown one. Times are nanoseconds of one monotonic clock, and 0 is the zero time.
pub mod Bounds
use quectel_qmi_go.Common.{
  ℕ, ◌+◌, ◌-◌, List, [], ◌∷◌, Bool, true, false, not, ◌&&◌, ◌||◌, if◌then◌else◌, ltb, leb, ◌==◌,
  length, Option, none, some, lookup, insert, delete, ℕ_discrete,
}

pub record RecentTransaction : Type 0 where
  pub service : ℕ
  pub msg_id : ℕ
  pub tx_id : ℕ
  pub start : ℕ
  pub deadline : ℕ
  pub completed_at : ℕ

abbrev pub Recents : Type 0
Recents = List (ℕ × RecentTransaction)

-- 2 * time.Minute
abbrev pub recent_transaction_ttl : ℕ
recent_transaction_ttl = 120_000_000_000

abbrev pub max_recent_transactions : ℕ
max_recent_transactions = 256

abbrev pub is_expired : ℕ → RecentTransaction → Bool
is_expired now r = ltb recent_transaction_ttl (now - r.completed_at)

unfoldable pub prune_recent : ℕ → Recents → Recents
prune_recent now [] = []
prune_recent now ((k, r) ∷ m) =
    let rest = prune_recent now m in if is_expired now r then rest else (k, r) ∷ rest

-- The loop for the key with the earliest completion, over the map in the order of the list.
unfoldable pub oldest_loop : Recents → ℕ → ℕ → ℕ
oldest_loop [] oldest_key oldest = oldest_key
oldest_loop ((k, r) ∷ m) oldest_key oldest =
    let earlier = oldest == 0 || ltb r.completed_at oldest in
    oldest_loop m (if earlier then k else oldest_key) (if earlier then r.completed_at else oldest)

unfoldable pub evict_oldest : Recents → Recents
evict_oldest m =
    if leb max_recent_transactions (length m) then delete ℕ_discrete m (oldest_loop m 0 0) else m

-- rememberRecentTransactionLocked; the text of the error is kept for the log only.
unfoldable pub remember_recent : ℕ → ℕ → RecentTransaction → Recents → Recents
remember_recent now key entry m =
    insert ℕ_discrete (evict_oldest (prune_recent now m)) key (record entry { completed_at = now })

-- takeRecentTransaction: an entry is handed out once, if it is neither stale nor of another message.
unfoldable pub take_recent : ℕ → ℕ → ℕ → ℕ → Recents → Option RecentTransaction × Recents
take_recent now key service msg_id m = elim (lookup ℕ_discrete m key) [
  | none ↦ (none, m)
  | some r ↦
      if is_expired now r
      then (none, delete ℕ_discrete m key)
      else if not (r.service == service) || not (r.msg_id == msg_id)
      then (none, m)
      else (some r, delete ℕ_discrete m key)
]
