-- ===== src/Client/Recent/Bounds.antt =====
-- The bound on remembered requests, and what a late response may find.
use quectel_qmi_go.Common.{
  ℕ, ◌+◌, ◌≤◌, ◌<◌, ◌≡◌, ◌≢◌, refl, [], ◌∷◌, length, none, some, lookup, insert, ℕ_discrete, arith,
  Option-cases, inl, inr, ◌⊎◌, lookup-insert, lookup-delete, shrink_delete, length-insert,
}
use quectel_qmi_go.Client.Recent.{
  RecentTransaction, Recents, recent_transaction_ttl, max_recent_transactions, prune_recent,
  oldest_loop, evict_oldest, remember_recent, take_recent,
}

length-prune_recent : (now : ℕ) (m : Recents) → length (prune_recent now m) ≤ length m
unfolding prune_recent
length-prune_recent now [] = omega arith
length-prune_recent now ((k, r) ∷ m) = ground (arith, length-prune_recent now m)

-- The loop ends at a key of the map, or where it began.
oldest_loop-found :
    (m : Recents) (k t : ℕ)
    → (oldest_loop m k t ≡ k) ⊎ (lookup ℕ_discrete m (oldest_loop m k t) ≢ none)
unfolding oldest_loop lookup
oldest_loop-found [] k t = inl refl
oldest_loop-found ((j, r) ∷ m) k t =
    ground (arith, oldest_loop-found m j r.completed_at, oldest_loop-found m k t)

-- From the zero time it ends at a key, if there is one.
oldest_loop-key :
    (k : ℕ) (r : RecentTransaction) (m : Recents)
    → lookup ℕ_discrete ((k, r) ∷ m) (oldest_loop ((k, r) ∷ m) 0 0) ≢ none
unfolding oldest_loop lookup
oldest_loop-key k r m = ground (arith, oldest_loop-found m k r.completed_at)

evict_oldest-room :
    (m : Recents)
    → length m ≤ max_recent_transactions
    → length (evict_oldest m) < max_recent_transactions
unfolding evict_oldest
evict_oldest-room [] h = omega arith
evict_oldest-room ((k, r) ∷ m) h =
    elim (Option-cases (lookup ℕ_discrete ((k, r) ∷ m) (oldest_loop ((k, r) ∷ m) 0 0))) [
      | inl gone ↦ absurd (oldest_loop-key k r m gone)
      | inr (v, e) ↦
          ground (arith, shrink_delete ℕ_discrete ((k, r) ∷ m) (oldest_loop ((k, r) ∷ m) 0 0) v e)
    ]

-- The memory never grows past its bound of 256 entries.
pub length-remember_recent :
    (now key : ℕ) (entry : RecentTransaction) (m : Recents)
    → length m ≤ max_recent_transactions
    → length (remember_recent now key entry m) ≤ max_recent_transactions
unfolding remember_recent
length-remember_recent now key entry m h = omega (
  arith,
  length-prune_recent now m,
  evict_oldest-room (prune_recent now m),
  length-insert ℕ_discrete (evict_oldest (prune_recent now m)) key
      (record entry { completed_at = now }),
)

-- A request that was remembered is found by its own late response if that comes within the two
-- minutes, with the same service and message, and only once.
pub take-remember_recent :
    (now later key : ℕ) (entry : RecentTransaction) (m : Recents)
    → later ≤ now + recent_transaction_ttl
    → let r = take_recent later key entry.service entry.msg_id (remember_recent now key entry m) in
      (r.0 ≡ some (record entry { completed_at = now }))
      × ((take_recent later key entry.service entry.msg_id r.1).0 ≡ none)
unfolding take_recent remember_recent
take-remember_recent now later key entry m h =
    let kept = evict_oldest (prune_recent now m) in
    let e = record entry { completed_at = now } in
    ground (
      arith,
      lookup-insert ℕ_discrete kept key key e,
      lookup-delete ℕ_discrete (insert ℕ_discrete kept key e) key key,
    )
