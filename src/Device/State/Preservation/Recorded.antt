-- ===== src/Device/State/Preservation/Recorded.antt =====
-- `reject`, `reject_conflicting_replay` and `replay_command` of state.rs keep the state valid.
use rss_incubator.Base.{
  ℕ, ◌<◌, ◌≡◌, refl, ◌∙◌, sym, Bool, true, false, [], ◌∷◌, map, Text, arith, ◌==◌, nat_eq, list_eq,
  ==_refl, is_nonneg, length, contains, any-contains, codes, ℤ, u64_max, saturating_add,
}
use rss_incubator.Crates.{Crates}
use rss_incubator.Device.Types.{sha256_digest_valid}
use rss_incubator.Device.State.Stored.{
  StateV1, StoredCommand, RejectedCommand, ack, outbox_limit, command_journal_limit,
}
use rss_incubator.Device.State.Hashes.{event_id}
use rss_incubator.Device.State.Entries.{
  is_empty, ack_kind_valid, ack_semantic_valid, command_semantic_valid, outbound_id, event_valid,
  ack_event_kind, outbound_semantic_valid,
}
use rss_incubator.Device.State.Validity.{IsValid}
use rss_incubator.Device.State.Transitions.{
  rejected_ack, conflict_ack, journal_entry, replay_cause, reject, reject_conflicting_replay,
}
use rss_incubator.Device.State.Outbound.{has_conflicting_replay}
use rss_incubator.Device.State.Preservation.Parts.{
  with_entry, sequence_unused, with_entry-IsValid, with_ack-IsValid,
}

-- What a recorded answer carries: an id, positive coordinates, a time and a retention.
pub record RejectedIsValid (c : RejectedCommand) : Type 0 where
  pub named : is_empty c.command_id ≡ false
  pub generation : 0 < c.generation
  pub fence : 0 < c.fence
  pub observed : is_nonneg c.observed_at ≡ true
  pub fingerprint : sha256_digest_valid c.fingerprint ≡ true
  pub retained : 0 < c.retain_until_epoch_seconds

abbrev pub journal_holds : StateV1 → Text → Bool
journal_holds s command_id =
    contains (map (λ (c : StoredCommand). c.command_id) s.command_journal) command_id

abbrev pub outbox_holds : StateV1 → Text → Bool
outbox_holds s event = contains (map outbound_id s.outbox) event

-- A cause that goes on behind the command id is another text.
replay_cause-ne :
    (command_id fingerprint : Text) → (replay_cause command_id fingerprint == command_id) ≡ false
replay_cause-ne [] fingerprint = refl
replay_cause-ne (c ∷ cs) fingerprint = ground (arith, replay_cause-ne cs fingerprint)

replay_cause-is_empty :
    (command_id fingerprint : Text) → is_empty (replay_cause command_id fingerprint) ≡ false
unfolding is_empty
replay_cause-is_empty [] fingerprint = refl
replay_cause-is_empty (c ∷ cs) fingerprint = refl

module _ ⦃crates : Crates⦄ where
  rejected_ack-valid :
      (c : RejectedCommand) (n : ℕ)
      → RejectedIsValid c
      → 0 < n
      → outbound_semantic_valid (ack (event_id (codes "ack") c.command_id) (rejected_ack c n))
        ≡ true
  unfolding outbound_semantic_valid event_valid ack_event_kind ack_semantic_valid ack_kind_valid
  rejected_ack-valid c n v h = ground (
    arith,
    v.named,
    v.observed,
    ==_refl c.command_id,
    ==_refl (event_id (codes "ack") c.command_id),
  )

  -- reject keeps a valid state valid, for a valid rejection whose command and event ids are
  -- unused, with room in the outbox, the journal and the sequence.
  pub reject-IsValid :
      (s : StateV1) (c : RejectedCommand)
      → IsValid s
      → RejectedIsValid c
      → journal_holds s c.command_id ≡ false
      → outbox_holds s (event_id (codes "ack") c.command_id) ≡ false
      → s.device_sequence < u64_max
      → length s.outbox < outbox_limit
      → length s.command_journal < command_journal_limit
      → IsValid (reject s c)
  unfolding reject command_semantic_valid ack_semantic_valid ack_kind_valid
  reject-IsValid s c v good fresh event below room journal_room =
      let n = saturating_add s.device_sequence 1 in
      let a = rejected_ack c n in
      let entry = journal_entry c.command_id c.fingerprint a c.retain_until_epoch_seconds in
      with_ack-IsValid (with_entry s entry) n (event_id (codes "ack") c.command_id) a
        (with_entry-IsValid s entry v
          (ground (arith, good.named, good.observed, good.fingerprint, ==_refl c.command_id)) fresh
          journal_room)
        refl (rejected_ack-valid c n good (omega arith)) event
        (sequence_unused s n s.outbox v.entries (omega arith)) (omega arith) (omega arith)
        (omega arith) room

  has_conflicting_replay_lem :
      (s : StateV1) (command_id fingerprint : Text)
      → has_conflicting_replay s command_id fingerprint
        ≡ outbox_holds s (event_id (codes "rejected") (replay_cause command_id fingerprint))
  unfolding has_conflicting_replay
  has_conflicting_replay_lem s command_id fingerprint =
      any-contains outbound_id s.outbox
        (event_id (codes "rejected") (replay_cause command_id fingerprint))

  conflict_ack-valid :
      (command_id fingerprint : Text) (generation fence : ℕ) (observed_at : ℤ) (n : ℕ)
      → is_empty command_id ≡ false
      → 0 < generation
      → 0 < fence
      → is_nonneg observed_at ≡ true
      → 0 < n
      → outbound_semantic_valid (
          ack
            (event_id (codes "rejected") (replay_cause command_id fingerprint))
            (conflict_ack command_id fingerprint generation fence observed_at n))
        ≡ true
  unfolding outbound_semantic_valid event_valid ack_event_kind ack_semantic_valid ack_kind_valid
  conflict_ack-valid command_id fingerprint generation fence observed_at n named g f o h = ground (
    arith,
    replay_cause-ne command_id fingerprint,
    replay_cause-is_empty command_id fingerprint,
    ==_refl (event_id (codes "rejected") (replay_cause command_id fingerprint)),
  )

  -- It keeps a valid state valid, for a named command with positive coordinates and a time that
  -- is not negative, whose conflict is not recorded yet, with room in the outbox and the
  -- sequence.
  pub reject_conflicting_replay-IsValid :
      (s : StateV1) (command_id fingerprint : Text) (generation fence : ℕ) (observed_at : ℤ)
      → IsValid s
      → is_empty command_id ≡ false
      → 0 < generation
      → 0 < fence
      → is_nonneg observed_at ≡ true
      → has_conflicting_replay s command_id fingerprint ≡ false
      → s.device_sequence < u64_max
      → length s.outbox < outbox_limit
      → IsValid (reject_conflicting_replay s command_id fingerprint generation fence observed_at)
  unfolding reject_conflicting_replay
  reject_conflicting_replay-IsValid s command_id fingerprint generation fence observed_at v named g
        f o fresh below room =
      let n = saturating_add s.device_sequence 1 in
      with_ack-IsValid s n _ (conflict_ack command_id fingerprint generation fence observed_at n) v
        refl
        (conflict_ack-valid command_id fingerprint generation fence observed_at n named g f o
          (omega arith))
        (sym (has_conflicting_replay_lem s command_id fingerprint) ∙ fresh)
        (sequence_unused s n s.outbox v.entries (omega arith)) (omega arith) (omega arith)
        (omega arith) room
