-- ===== src/Gmail/Projection/Threads.antt =====
-- The threads of a snapshot.
use mailmon.Base.{
  ℕ, ◌≤◌, String, ◌≡◌, refl, inl, inr, Bool, true, false, Option, none, some, List, [], ◌∷◌, ◌==◌,
  ==_refl, arith, if◌then◌else◌, All, Option-cases, Bool-cases,
}
use mailmon.Base.Table.{find?, upsert}
use mailmon.Contracts.{CanonicalMessageRecord, CanonicalThreadRecord}
use mailmon.Gmail.Projection.{
  thread_named, thread_of_message, is_newer, note_thread, threads_from, snapshot_threads,
}

-- The threads have one of that name, whose last message is at least as late.
abbrev pub AtLeastAt : String → ℕ → Option CanonicalThreadRecord → Type 0
AtLeastAt id at none = ⊥
AtLeastAt id at (some thread) = at ≤ thread.last_message_at

abbrev pub Covers : List CanonicalThreadRecord → CanonicalMessageRecord → Type 0
Covers threads message =
    AtLeastAt message.provider_thread_id message.received_at
      (find? (thread_named message.provider_thread_id) threads)

set_thread-found :
    (id : String) (message : CanonicalMessageRecord) (threads : List CanonicalThreadRecord)
    → find? (thread_named id) (
        upsert
          (thread_named message.provider_thread_id)
          (thread_of_message message)
          (λ _. thread_of_message message)
          threads)
      ≡ (if message.provider_thread_id == id
          then some (thread_of_message message)
          else find? (thread_named id) threads)
unfolding find? upsert
set_thread-found id message [] = ground arith
set_thread-found id message (t ∷ ts) = ground (arith, set_thread-found id message ts)

AtLeastAt-if :
    (b : Bool) (id : String) (at : ℕ) (t : CanonicalThreadRecord) (o : Option CanonicalThreadRecord)
    → (b ≡ true → at ≤ t.last_message_at)
    → (b ≡ false → AtLeastAt id at o)
    → AtLeastAt id at (if b then some t else o)
AtLeastAt-if true id at t o late kept = late refl
AtLeastAt-if false id at t o late kept = kept refl

note_thread-keeps :
    (id : String) (at : ℕ) (message : CanonicalMessageRecord) (threads : List CanonicalThreadRecord)
    → AtLeastAt id at (find? (thread_named id) threads)
    → AtLeastAt id at (find? (thread_named id) (note_thread message threads))
note_thread-keeps id at message threads h =
    elim (Bool-cases (is_newer message (find? (thread_named message.provider_thread_id) threads))) [
      | inr older ↦ rw older h
      | inl newer ↦ rw newer (
          rw (set_thread-found id message threads) (
            AtLeastAt-if (message.provider_thread_id == id) id at (thread_of_message message)
              (find? (thread_named id) threads) (later newer) (λ _. h)))
    ]
  where
    later :
        is_newer message (find? (thread_named message.provider_thread_id) threads) ≡ true
        → (message.provider_thread_id == id) ≡ true
        → at ≤ message.received_at
    later newer same = elim (Option-cases (find? (thread_named id) threads)) [
      | inl e ↦ absurd (rw e at h)
      | inr (t, e) ↦ ground (arith, newer, same, e, rw e at h)
    ]

note_thread-Covers :
    (message : CanonicalMessageRecord) (threads : List CanonicalThreadRecord)
    → Covers (note_thread message threads) message
note_thread-Covers message threads =
    elim (Bool-cases (is_newer message (find? (thread_named message.provider_thread_id) threads))) [
      | inl newer ↦ rw newer (
          rw (set_thread-found message.provider_thread_id message threads) (
            AtLeastAt-if (message.provider_thread_id == message.provider_thread_id)
              message.provider_thread_id message.received_at (thread_of_message message)
              (find? (thread_named message.provider_thread_id) threads) (λ _. omega arith)
              (λ other. ground (arith, other, ==_refl message.provider_thread_id))))
      | inr older ↦
          rw older (elim (Option-cases (find? (thread_named message.provider_thread_id) threads)) [
            | inl e ↦ ground (arith, e, older)
            | inr (t, e) ↦ rw e (ground (arith, e, older))
          ])
    ]

threads_from-keeps :
    (id : String) (at : ℕ) (messages : List CanonicalMessageRecord)
    (threads : List CanonicalThreadRecord)
    → AtLeastAt id at (find? (thread_named id) threads)
    → AtLeastAt id at (find? (thread_named id) (threads_from messages threads))
unfolding threads_from
threads_from-keeps id at [] threads h = h
threads_from-keeps id at (message ∷ messages) threads h =
    threads_from-keeps id at messages (note_thread message threads)
      (note_thread-keeps id at message threads h)

threads_from-Covers :
    (messages : List CanonicalMessageRecord) (threads : List CanonicalThreadRecord)
    → All (Covers (threads_from messages threads)) messages
unfolding threads_from
threads_from-Covers [] threads = tt
threads_from-Covers (message ∷ messages) threads = (
  threads_from-keeps message.provider_thread_id message.received_at messages
      (note_thread message threads) (note_thread-Covers message threads),
  threads_from-Covers messages (note_thread message threads),
)

-- Every message of a snapshot has its thread among the snapshot's threads, with a last message that
-- is at least as late.
pub snapshot_threads-Covers :
    (messages : List CanonicalMessageRecord) → All (Covers (snapshot_threads messages)) messages
unfolding snapshot_threads
snapshot_threads-Covers messages = threads_from-Covers messages []
