-- ===== src/Contract/Leases/Windows.antt =====
-- Transfer episodes and lease windows: the bounds that an accepted one keeps.
use oracle_free_arch_vps.Base.{
  Bool-cases, IfSome, List, Option, Result-cases, String, arith, inl, inr, none, ok, refl, some, ℕ,
  ◌+◌, ◌∷◌, ◌≡◌, ◌≤◌, ◌⊎◌,
}
use oracle_free_arch_vps.Profile.{assert_budget, blocked_transport_ms, limit, slot_bytes}
use oracle_free_arch_vps.Json.{Value, get, has_own}
use oracle_free_arch_vps.Contract.Fields.{monotonic, object}
use oracle_free_arch_vps.Contract.Leases.{
  LeaseWindow, RetryEpisode, TransferEpisode, own_field, read_retry, read_transfer,
  transfer_window_ms, validate_lease_window, validate_transfer_episode,
}
use oracle_free_arch_vps.Inventory.{budgeted}

-- The bounds of a blocked transport's retry episode.
abbrev pub RetryFits : ℕ → RetryEpisode → Type 0
RetryFits observed e =
    (e.started_at_ms ≤ observed)
    × (e.started_at_ms ≤ e.expires_at_ms)
    × (e.expires_at_ms ≤ e.started_at_ms + limit blocked_transport_ms)

-- The bounds of a transfer: what it may retain, and the window of its phase.
abbrev pub TransferFits : ℕ → TransferEpisode → Type 0
TransferFits observed e =
    (1 ≤ e.retained_bytes)
    × (e.retained_bytes ≤ limit slot_bytes)
    × (e.started_at_ms ≤ observed)
    × (e.started_at_ms ≤ e.expires_at_ms)
    × (e.expires_at_ms ≤ e.started_at_ms + transfer_window_ms e.phase)

transfer_episode-TransferFits :
    (v : Value) (observed : ℕ) (e : TransferEpisode)
    → validate_transfer_episode v observed ≡ ok e
    → TransferFits observed e
unfolding validate_transfer_episode budgeted assert_budget monotonic
transfer_episode-TransferFits v observed e h = ground arith

read_transfer-TransferFits :
    (v : Value) (observed : ℕ) (e : TransferEpisode)
    → read_transfer v observed ≡ ok (some e)
    → TransferFits observed e
unfolding read_transfer
read_transfer-TransferFits v observed e h =
    transfer_episode-TransferFits v observed e (ground arith)

read_retry-RetryFits :
    (v : Value) (observed : ℕ) (e : RetryEpisode)
    → read_retry v observed ≡ ok (some e)
    → RetryFits observed e
unfolding read_retry
read_retry-RetryFits v observed e h = ground arith

abbrev pub lease_window_keys : Value → List String
lease_window_keys v =
    "observedMonotonicMs"
    ∷ "usefulProgressAtMs"
    ∷ "usefulProgressExpiresAtMs"
    ∷ "retryEpisode"
    ∷ own_field v "transferEpisode"

lease_window_retry :
    (v : Value) (w : LeaseWindow)
    → validate_lease_window v ≡ ok w
    → (u : Value) × (read_retry u w.observed_monotonic_ms ≡ ok w.retry_episode)
unfolding validate_lease_window
lease_window_retry v w h = elim (Result-cases (object v (lease_window_keys v))) [
  | inr (e, q) ↦ absurd (ground arith)
  | inl (r, q) ↦ (get r "retryEpisode", ground arith)
]

lease_window_transfer :
    (v : Value) (w : LeaseWindow)
    → validate_lease_window v ≡ ok w
    → (w.transfer_episode ≡ none)
      ⊎ ((u : Value) × (read_transfer u w.observed_monotonic_ms ≡ ok w.transfer_episode))
unfolding validate_lease_window
lease_window_transfer v w h = elim (Result-cases (object v (lease_window_keys v))) [
  | inr (e, q) ↦ absurd (ground arith)
  | inl (r, q) ↦ elim (Bool-cases (has_own r "transferEpisode")) [
    | inl p ↦ inr (get r "transferEpisode", ground arith)
    | inr p ↦ inl (ground arith)
  ]
]

lease_window_times :
    (v : Value) (w : LeaseWindow)
    → validate_lease_window v ≡ ok w
    → (w.useful_progress_at_ms ≤ w.observed_monotonic_ms)
      × (w.useful_progress_at_ms ≤ w.useful_progress_expires_at_ms)
unfolding validate_lease_window monotonic
lease_window_times v w h = ground arith

any_retry :
    (u : Value) (observed : ℕ) (o : Option RetryEpisode)
    → read_retry u observed ≡ ok o
    → IfSome (RetryFits observed) o
any_retry u observed none h = tt
any_retry u observed (some e) h = read_retry-RetryFits u observed e h

any_transfer :
    (w : LeaseWindow)
    → (w.transfer_episode ≡ none)
      ⊎ ((u : Value) × (read_transfer u w.observed_monotonic_ms ≡ ok w.transfer_episode))
    → (o : Option TransferEpisode) → w.transfer_episode ≡ o
    → IfSome (TransferFits w.observed_monotonic_ms) o
any_transfer w x none e = tt
any_transfer w (inl p) (some t) e = absurd (ground arith)
any_transfer w (inr (u, p)) (some t) e = read_transfer-TransferFits u w.observed_monotonic_ms t (cc)

-- An accepted lease window observes progress that is not in the future and does not expire before
-- it was made; a retry episode in it has started and spans at most the blocked transport time; a
-- transfer in it retains between one byte and a slot, has started, and spans at most the window of
-- its phase.
pub lease_window_bounds :
    (v : Value) (w : LeaseWindow)
    → validate_lease_window v ≡ ok w
    → (w.useful_progress_at_ms ≤ w.observed_monotonic_ms)
      × (w.useful_progress_at_ms ≤ w.useful_progress_expires_at_ms)
      × IfSome (RetryFits w.observed_monotonic_ms) w.retry_episode
      × IfSome (TransferFits w.observed_monotonic_ms) w.transfer_episode
lease_window_bounds v w h =
    let (a, b) = lease_window_times v w h in
    let (u, retry) = lease_window_retry v w h in
    (a, b, any_retry u _ _ retry, any_transfer w (lease_window_transfer v w h) _ refl)
