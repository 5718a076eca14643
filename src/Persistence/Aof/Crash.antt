-- ===== src/Persistence/Aof/Crash.antt =====
-- The append-only file across a crash, and after a compaction.
use dist_cache.Base.{
  ℕ, zero, suc, ◌≡◌, refl, ap, sym, ◌∙◌, subst, List, [], ◌∷◌, ◌++◌, some, Bytes, length, take,
  drop, All, take-length-append, ltb, Bool-cases, inl, inr,
}
use dist_cache.Cache.Item.{Event}
use dist_cache.Cache.Wire.{IsWire}
use dist_cache.Persistence.Codec.{encode_record}
use dist_cache.Persistence.Aof.{
  SyncPolicy, sync_no, sync_every_sec, sync_always, ended, scan, read_aof, later_than, read_records,
  log_of, Aof, open_aof, sync, append, rewrite, compact,
}
use dist_cache.Persistence.Aof.Recovery.{++-assoc, read_aof-log_of, read_aof-prefix}

-- A step of a running file: an appended event with the bytes the writer hands over, or the tick
-- of `everySec`, which is also what `Sync` does.
pub data Step : Type 0 where
  append_step : ℕ → Event → Step
  sync_step : Step

unfoldable pub step : Step → Aof → Aof
step (append_step spill ev) a = append spill ev a
step sync_step a = sync a

unfoldable pub steps : List Step → Aof → Aof
steps [] a = a
steps (s ∷ ss) a = steps ss (step s a)

unfoldable pub appended : List Step → List Event
appended [] = []
appended (append_step spill ev ∷ ss) = ev ∷ appended ss
appended (sync_step ∷ ss) = appended ss

unfoldable written : Aof → Bytes
written a = a.disk ++ a.buffer

++-nil : (xs : Bytes) → xs ++ [] ≡ xs
++-nil [] = refl
++-nil (x ∷ xs) = ap (◌∷◌ x) (++-nil xs)

take++drop : (n : ℕ) (xs : Bytes) → take n xs ++ drop n xs ≡ xs
take++drop zero xs = refl
take++drop (suc n) [] = refl
take++drop (suc n) (x ∷ xs) = ap (◌∷◌ x) (take++drop n xs)

spilled :
    (spill : ℕ) (disk buffer rec : Bytes)
    → (disk ++ take spill (buffer ++ rec)) ++ drop spill (buffer ++ rec) ≡ (disk ++ buffer) ++ rec
spilled spill disk buffer rec =
    ++-assoc disk (take spill (buffer ++ rec)) (drop spill (buffer ++ rec))
    ∙ ap (◌++◌ disk) (take++drop spill (buffer ++ rec))
    ∙ sym (++-assoc disk buffer rec)

written-append :
    (spill : ℕ) (ev : Event) (a : Aof) → written (append spill ev a) ≡ written a ++ encode_record ev
unfolding written append sync
written-append spill ev a =
    elim a.policy
      as (λ p.
        written (append spill ev (record a { policy = p })) ≡ written a ++ encode_record ev) [
          | sync_no ↦ spilled spill a.disk a.buffer (encode_record ev)
          | sync_every_sec ↦ spilled spill a.disk a.buffer (encode_record ev)
          | sync_always ↦ ++-nil _ ∙ spilled spill a.disk a.buffer (encode_record ev)
        ]

written-sync : (a : Aof) → written (sync a) ≡ written a
unfolding written sync
written-sync a = ++-nil _

sync-buffer : (a : Aof) → (sync a).buffer ≡ []
unfolding sync
sync-buffer a = refl

All-later_than : (n : ℕ) (evs : List Event) → All IsWire evs → All IsWire (later_than n evs)
All-later_than n [] ws = ws
All-later_than n (ev ∷ evs) (w, ws) = elim (Bool-cases (ltb n ev.seq)) [
  | inl e ↦ rw (later_than, e) (w, All-later_than n evs ws)
  | inr e ↦ rw (later_than, e) (All-later_than n evs ws)
]

written-steps :
    (ss : List Step) (a : Aof) → written (steps ss a) ≡ written a ++ log_of (appended ss)
unfolding steps step appended log_of
written-steps [] a = sym (++-nil _)
written-steps (append_step spill ev ∷ ss) a =
    written-steps ss (append spill ev a)
    ∙ ap (λ b. b ++ log_of (appended ss)) (written-append spill ev a)
    ∙ ++-assoc (written a) (encode_record ev) (log_of (appended ss))
written-steps (sync_step ∷ ss) a =
    written-steps ss (sync a) ∙ ap (λ b. b ++ log_of (appended ss)) (written-sync a)

-- The file that a run leaves, as the part of its log that has reached the disk.
disk-steps :
    (p : SyncPolicy) (ss : List Step)
    → let a = steps ss (open_aof p []) in a.disk ≡ take (length a.disk) (log_of (appended ss))
unfolding written open_aof
disk-steps p ss =
    let a : Aof = steps ss (open_aof p []) in
    sym (take-length-append a.disk a.buffer)
    ∙ ap (take (length a.disk)) (written-steps ss (open_aof p []))

-- From an empty file, after any run of appends of events that fit their encoding and of syncs, and
-- whatever the writer has handed over by then: the file that a crash leaves is read to an end,
-- without a panic, and gives a prefix of the appended events.
pub crash_recovers_prefix :
    (p : SyncPolicy) (ss : List Step)
    → All IsWire (appended ss)
    → (k : ℕ) × (read_aof (steps ss (open_aof p [])).disk ≡ scan (take k (appended ss)) ended)
crash_recovers_prefix p ss ws =
    let a : Aof = steps ss (open_aof p []) in
    subst (λ d. (k : ℕ) × (read_aof d ≡ scan (take k (appended ss)) ended)) (sym (disk-steps p ss))
      (read_aof-prefix (appended ss) ws (length a.disk))

always-steps :
    (ss : List Step) (a : Aof) → a.policy ≡ sync_always → a.buffer ≡ [] → (steps ss a).buffer ≡ []
unfolding steps step append sync
always-steps [] a e b = b
always-steps (append_step spill ev ∷ ss) a e b =
    always-steps ss (append spill ev a) (rw e refl) (rw e refl)
always-steps (sync_step ∷ ss) a e b = always-steps ss (sync a) e refl

read_aof-disk :
    (p : SyncPolicy) (ss : List Step) (a : Aof)
    → All IsWire (appended ss)
    → written a ≡ log_of (appended ss)
    → a.buffer ≡ []
    → read_aof a.disk ≡ scan (appended ss) ended
unfolding written
read_aof-disk p ss a ws e b =
    ap read_aof (sym (++-nil a.disk) ∙ ap (◌++◌ a.disk) (sym b) ∙ e)
    ∙ read_aof-log_of (appended ss) ws

module _ (p : SyncPolicy) (ss : List Step) (ws : All IsWire (appended ss)) where
  -- From an empty file, for events that fit their encoding: a file gives all of the appended
  -- events after a sync, under any policy, and after every step under the policy `always`.
  pub synced_keeps_all :
      (read_aof (sync (steps ss (open_aof p []))).disk ≡ scan (appended ss) ended)
      × (read_aof (steps ss (open_aof sync_always [])).disk ≡ scan (appended ss) ended)
  unfolding open_aof written
  synced_keeps_all = (
    read_aof-disk p ss (sync (steps ss (open_aof p []))) ws
        (written-sync (steps ss (open_aof p [])) ∙ written-steps ss (open_aof p []))
        (sync-buffer (steps ss (open_aof p []))),
    read_aof-disk p ss (steps ss (open_aof sync_always [])) ws
        (written-steps ss (open_aof sync_always []))
        (always-steps ss (open_aof sync_always []) refl refl),
  )

  -- From an empty file, for events that fit their encoding: a compaction after any run of appends
  -- and syncs does not fail, and after it the file gives the events after the sequence number, in
  -- order, and no other.
  pub read_aof-compact :
      (n : ℕ)
      → (a : Aof) × (compact n (steps ss (open_aof p [])) ≡ some a)
        × (read_aof a.disk ≡ scan (later_than n (appended ss)) ended)
  unfolding compact read_records open_aof
  read_aof-compact n = (
    open_aof (steps ss (open_aof p [])).policy (log_of (later_than n (appended ss))),
    ap (λ s. rewrite (steps ss (open_aof p [])).policy (scan (later_than n s.events) s.ending))
        synced_keeps_all.0,
    read_aof-log_of _ (All-later_than n (appended ss) ws),
  )
