-- ===== src/Recovery/Timeouts/Counting.antt =====
-- pkg/manager/service_recovery.go, recordServiceTimeoutFailure: which timeout of a row calls for a
-- recovery.
use quectel_qmi_go.Common.{
  ℕ, zero, suc, ◌-◌, ◌≤◌, ◌<◌, ◌≡◌, ◌≢◌, refl, ap, ◌∙◌, List, [], ◌∷◌, Bool, leb, insert, delete,
  lookup-insert, lookup-delete, length, arith,
}
use quectel_qmi_go.Recovery.Timeouts.{
  ServiceTimeoutKey, key_discrete, ServiceTimeoutWindow, RecoveryPolicy, Failures, threshold_of,
  window_of, window_at, next_window, count_timeout, note_service_operation_success,
}

-- Timeouts of one operation at these times, the earliest first, among those of others.
pub data Other : Type 0 where
  another_timed_out : ℕ → ServiceTimeoutKey → Other
  another_succeeded : ServiceTimeoutKey → Other

abbrev pub other_key : Other → ServiceTimeoutKey
other_key (another_timed_out now key) = key
other_key (another_succeeded key) = key

unfoldable pub other_runs : RecoveryPolicy → List Other → Failures → Failures
unfolding count_timeout note_service_operation_success
other_runs p [] fs = fs
other_runs p (another_timed_out now key ∷ os) fs = other_runs p os (count_timeout p now key fs).1
other_runs p (another_succeeded key ∷ os) fs =
    other_runs p os (note_service_operation_success key fs)

-- Each of the others is of another key.
abbrev pub AreOthers : ServiceTimeoutKey → List Other → Type 0
AreOthers key [] = Unit
AreOthers key (o ∷ os) = (other_key o ≢ key) × AreOthers key os

window_at-insert :
    (fs : Failures) (key : ServiceTimeoutKey) (w : ServiceTimeoutWindow)
    → window_at (insert key_discrete fs key w) key ≡ w
window_at-insert fs key w = ground (arith, lookup-insert key_discrete fs key key w)

window_at-insert_other :
    (fs : Failures) (j key : ServiceTimeoutKey) (w : ServiceTimeoutWindow)
    → j ≢ key
    → window_at (insert key_discrete fs j w) key ≡ window_at fs key
window_at-insert_other fs j key w ne = ground (arith, ne, lookup-insert key_discrete fs j key w)

window_at-delete_other :
    (fs : Failures) (j key : ServiceTimeoutKey)
    → j ≢ key
    → window_at (delete key_discrete fs j) key ≡ window_at fs key
window_at-delete_other fs j key ne = ground (arith, ne, lookup-delete key_discrete fs j key)

others_kept :
    (p : RecoveryPolicy) (key : ServiceTimeoutKey) (os : List Other) (fs : Failures)
    → AreOthers key os
    → window_at (other_runs p os fs) key ≡ window_at fs key
unfolding other_runs count_timeout note_service_operation_success
others_kept p key [] fs h = refl
others_kept p key (another_timed_out now j ∷ os) fs (ne, h) =
    others_kept p key os (count_timeout p now j fs).1 h
    ∙ window_at-insert_other fs j key (next_window p now (window_at fs j)) ne
others_kept p key (another_succeeded j ∷ os) fs (ne, h) =
    others_kept p key os (note_service_operation_success j fs) h
    ∙ window_at-delete_other fs j key ne

-- A row of timeouts of one operation, each behind what other operations do; the answers in order.
unfoldable pub row :
    RecoveryPolicy → ServiceTimeoutKey → List (List Other × ℕ) → Failures → List Bool × Failures
row p key [] fs = ([], fs)
row p key ((os, now) ∷ ts) fs =
    let (recovers, fs') = count_timeout p now key (other_runs p os fs) in
    let (answers, last) = row p key ts fs' in (recovers ∷ answers, last)

-- The timeouts are of other operations in between, and all within the window from `first`.
abbrev pub AreWithin : RecoveryPolicy → ServiceTimeoutKey → ℕ → List (List Other × ℕ) → Type 0
AreWithin p key first [] = Unit
AreWithin p key first ((os, now) ∷ ts) =
    (AreOthers key os × (now - first ≤ window_of p)) × AreWithin p key first ts

-- From the n-th on, k answers: true from the threshold on.
abbrev pub answers_from : RecoveryPolicy → ℕ → ℕ → List Bool
answers_from p n zero = []
answers_from p n (suc k) = leb (threshold_of p) n ∷ answers_from p (suc n) k

count_within :
    (p : RecoveryPolicy) (now : ℕ) (key : ServiceTimeoutKey) (fs : Failures) (first n : ℕ)
    → 0 < first
    → now - first ≤ window_of p
    → window_at fs key ≡ record { first = first; count = n }
    → count_timeout p now key fs ≡ (
      leb (threshold_of p) (suc n),
      insert key_discrete fs key (record { first = first; count = suc n }),
    )
unfolding count_timeout next_window
count_within p now key fs first n h hw e = rw (count_timeout, e) (ground (arith, h, hw))

row_counted :
    (p : RecoveryPolicy) (key : ServiceTimeoutKey) (ts : List (List Other × ℕ)) (fs : Failures)
    (first n : ℕ)
    → 0 < first
    → window_at fs key ≡ record { first = first; count = n }
    → AreWithin p key first ts
    → (row p key ts fs).0 ≡ answers_from p (suc n) (length ts)
unfolding row
row_counted p key [] fs first n h e v = refl
row_counted p key ((os, now) ∷ ts) fs first n h e ((ho, hw), v) =
    let w : ServiceTimeoutWindow = record { first = first; count = suc n } in
    let counted =
      count_within p now key (other_runs p os fs) first n h hw (others_kept p key os fs ho ∙ e) in
    rw (row, counted)
      (ap (λ answers. leb (threshold_of p) (suc n) ∷ answers)
        (row_counted p key ts (insert key_discrete (other_runs p os fs) key w) first (suc n) h
          (window_at-insert (other_runs p os fs) key w) v))

succeeded_window :
    (key : ServiceTimeoutKey) (fs : Failures)
    → window_at (note_service_operation_success key fs) key ≡ record { first = 0; count = 0 }
unfolding note_service_operation_success
succeeded_window key fs = ground (arith, lookup-delete key_discrete fs key key)

count_first :
    (p : RecoveryPolicy) (now : ℕ) (key : ServiceTimeoutKey) (fs : Failures)
    → window_at fs key ≡ record { first = 0; count = 0 }
    → count_timeout p now key fs
      ≡ (leb (threshold_of p) 1, insert key_discrete fs key (record { first = now; count = 1 }))
unfolding count_timeout next_window
count_first p now key fs e = rw (count_timeout, e) refl

row_first :
    (p : RecoveryPolicy) (key : ServiceTimeoutKey) (fs : Failures) (now : ℕ)
    (ts : List (List Other × ℕ))
    → window_at fs key ≡ record { first = 0; count = 0 }
    → (row p key (([], now) ∷ ts) fs).0
      ≡ leb (threshold_of p) 1
        ∷ (row p key ts (insert key_discrete fs key (record { first = now; count = 1 }))).0
unfolding row other_runs
row_first p key fs now ts e = ap (λ r. r.0 ∷ (row p key ts r.1).0) (count_first p now key fs e)

-- After a success an operation times out again and again, within the window from the first of these
-- timeouts on, whatever timeouts and successes of other operations come in between: it calls for a
-- recovery exactly from the timeout on that makes the number up to the threshold.
pub threshold_counted :
    (p : RecoveryPolicy) (key : ServiceTimeoutKey) (fs : Failures) (now : ℕ)
    (ts : List (List Other × ℕ))
    → 0 < now
    → AreWithin p key now ts
    → (row p key (([], now) ∷ ts) (note_service_operation_success key fs)).0
      ≡ answers_from p 1 (suc (length ts))
threshold_counted p key fs now ts h v =
    let cleared = note_service_operation_success key fs in
    let w : ServiceTimeoutWindow = record { first = now; count = 1 } in
    row_first p key cleared now ts (succeeded_window key fs)
    ∙ ap (λ answers. leb (threshold_of p) 1 ∷ answers)
        (row_counted p key ts (insert key_discrete cleared key w) now 1 h
          (window_at-insert cleared key w) v)
