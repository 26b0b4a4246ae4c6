-- ===== src/Device/State/Journal.antt =====
-- The command journal and the capacity checks of state.rs.
use rss_incubator.Base.{
  ℕ, ◌+◌, Bool, ◌&&◌, ◌||◌, not, Option, none, some, Text, ◌==◌, nat_eq, list_eq, ltb, leb,
  if◌then◌else◌, is_some_and, saturating_add, u64_max, length, any, find, retain, Result, ok, err,
}
use rss_incubator.Device.State.Stored.{
  StateV1, StoredCommand, StoreError, invalid_state, outbox_full, command_journal_full,
  outbox_limit, command_journal_limit,
}

unfoldable pub command_match : StateV1 → Text → Text → ℕ → Option Bool
command_match s command_id fingerprint now = elim (find live_match s.command_journal) [
  | none ↦ none
  | some c ↦ some (c.fingerprint == fingerprint)
]
  where
    live_match : StoredCommand → Bool
    live_match c = c.command_id == command_id && ltb now c.retain_until_epoch_seconds

-- `pending_command == Some(command_id)`.
unfoldable pub is_pending_command : StateV1 → Text → Bool
is_pending_command s command_id = is_some_and s.pending_inbound (λ p. p.command_id == command_id)

unfoldable pub expire_command_journal : StateV1 → ℕ → StateV1
unfolding is_pending_command
expire_command_journal s now = record s {
  command_journal =
      retain (λ c. ltb now c.retain_until_epoch_seconds || is_pending_command s c.command_id)
        s.command_journal;
}

unfoldable pub reserve_command_journal : StateV1 → Result StoreError (Unit {0})
reserve_command_journal s =
    if ltb (length s.command_journal) command_journal_limit then ok tt else err command_journal_full

unfoldable pub command_journal_has_capacity : StateV1 → ℕ → Bool
unfolding is_pending_command
command_journal_has_capacity s now =
    ltb (length s.command_journal) command_journal_limit
    || any
        (λ (c : StoredCommand).
          leb c.retain_until_epoch_seconds now && not (is_pending_command s c.command_id))
        s.command_journal

unfoldable pub reserve_outbox : StateV1 → ℕ → Result StoreError (Unit {0})
reserve_outbox s count =
    if leb (saturating_add (length s.outbox) count) outbox_limit then ok tt else err outbox_full

-- `next_revision`: a checked addition, then a non-zero revision.
unfoldable pub next_revision : StateV1 → Result StoreError ℕ
next_revision s =
    let revision = s.current.credential_revision + 1 in
    if leb revision u64_max
    then (if revision == 0 then err invalid_state else ok revision)
    else err invalid_state
