-- ===== src/Pool/Scan.antt =====
-- pkg/manager/pool.go, scanForChanges: which modems are there after a scan.
use quectel_qmi_go.Common.{
  ℕ, ◌≡◌, refl, List, [], ◌∷◌, Bool, true, false, not, ◌||◌, if◌then◌else◌, ◌==◌, none, some,
  lookup, ℕ_discrete, lookup-insert, lookup-delete, arith,
}
use quectel_qmi_go.Connection
use quectel_qmi_go.Pool
use quectel_qmi_go.Pool.{
  Modem, ModemPool, is_some, exists, is_listed, enter, drop_modem, remove_loop, add_loop,
  scan_for_changes,
}

abbrev has_key : List (ℕ × Modem) → ℕ → Bool
has_key [] k = false
has_key ((name, m) ∷ ms) k = name == k || has_key ms k

lookup-absent :
    (ms : List (ℕ × Modem)) (k : ℕ) → has_key ms k ≡ false → lookup ℕ_discrete ms k ≡ none
unfolding lookup
lookup-absent [] k e = refl
lookup-absent ((name, m) ∷ ms) k e = ground (arith, e, lookup-absent ms k)

drop_modem-lookup :
    (name k : ℕ) (m : Modem) (p : ModemPool)
    → lookup ℕ_discrete (drop_modem name m p).modems k
      ≡ (if name == k then none else lookup ℕ_discrete p.modems k)
unfolding drop_modem
drop_modem-lookup name k m p = ground (arith, lookup-delete ℕ_discrete p.modems name k)

remove_loop-lookup :
    (ds : List ℕ) (ms : List (ℕ × Modem)) (p : ModemPool) (k : ℕ)
    → lookup ℕ_discrete (remove_loop ds ms p).modems k
      ≡ (if is_listed ds k || not (has_key ms k) then lookup ℕ_discrete p.modems k else none)
unfolding remove_loop
remove_loop-lookup ds [] p k = ground arith
remove_loop-lookup ds ((name, m) ∷ ms) p k =
    let p' = if is_listed ds name then p else drop_modem name m p in
    ground (arith, remove_loop-lookup ds ms p' k, drop_modem-lookup name k m p)

-- What is there stays, and `d` is there.
enter-lookup : (d k : ℕ) (p : ModemPool) → exists (enter d p) k ≡ (d == k || exists p k)
unfolding enter
enter-lookup d k p = ground (
  arith,
  lookup-insert ℕ_discrete p.modems d k
      (record { id = p.created; state = Connection.disconnected; signal = Pool.no_service }),
)

enter-kept :
    (d k : ℕ) (p : ModemPool)
    → exists p d ≡ false
    → exists p k ≡ true
    → lookup ℕ_discrete (enter d p).modems k ≡ lookup ℕ_discrete p.modems k
unfolding enter
enter-kept d k p ed ek = ground (
  arith,
  ed,
  ek,
  lookup-insert ℕ_discrete p.modems d k
      (record { id = p.created; state = Connection.disconnected; signal = Pool.no_service }),
)

add_loop-exists :
    (ds : List ℕ) (p : ModemPool) (k : ℕ)
    → exists (add_loop ds p) k ≡ (is_listed ds k || exists p k)
unfolding add_loop
add_loop-exists [] p k = refl
add_loop-exists (d ∷ ds) p k =
    let p' = if exists p d then p else record (enter d p) { started = p.created ∷ p.started } in
    ground (arith, add_loop-exists ds p' k, enter-lookup d k p)

add_loop-kept :
    (ds : List ℕ) (p : ModemPool) (k : ℕ)
    → exists p k ≡ true
    → lookup ℕ_discrete (add_loop ds p).modems k ≡ lookup ℕ_discrete p.modems k
unfolding add_loop
add_loop-kept [] p k e = refl
add_loop-kept (d ∷ ds) p k e =
    let p' = if exists p d then p else record (enter d p) { started = p.created ∷ p.started } in
    ground (arith, e, add_loop-kept ds p' k, enter-lookup d k p, enter-kept d k p)

remove_loop-exists :
    (ds : List ℕ) (p : ModemPool) (k : ℕ)
    → lookup ℕ_discrete (remove_loop ds p.modems p).modems k
      ≡ (if is_listed ds k then lookup ℕ_discrete p.modems k else none)
remove_loop-exists ds p k =
    ground (arith, remove_loop-lookup ds p.modems p k, lookup-absent p.modems k)

-- After a scan the pool has a modem for exactly the discovered names, whatever they were before, and a
-- name that had one and is discovered again keeps the same manager.
pub modems_scanned :
    (ds : List ℕ) (p : ModemPool) (name : ℕ)
    → let after = scan_for_changes (some ds) p in
      (exists after name ≡ is_listed ds name)
      × ((if exists p name then lookup ℕ_discrete after.modems name else none)
          ≡ (if is_listed ds name then lookup ℕ_discrete p.modems name else none))
unfolding scan_for_changes
modems_scanned ds p name =
    let left = remove_loop ds p.modems p in
    ground (
      arith,
      remove_loop-exists ds p name,
      add_loop-exists ds left name,
      add_loop-kept ds left name,
    )
