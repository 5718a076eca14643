-- ===== src/Tests/Shards.antt =====
-- A shard under the LRU policy, at concrete inputs.
use dist_cache.Base.{
  ◌≡◌, ◌≤◌, ◌<◌, ◌⊎◌, refl, ite, if◌then◌else◌, [], ◌∷◌, some, none, Bytes, Bytes-discrete,
  bytes_eq, length, arith, ℕ, true, false,
}
use dist_cache.Base.Assoc.{lookup, insert, erase, total}
use dist_cache.Base.Int64.{pos, ◌+ℤ◌, ◌-ℤ◌, wrap}
use dist_cache.Cache.Item.{approx_size}
use dist_cache.Cache.Shard
use dist_cache.Cache.Shard.{Shard, evict_loop, enforce_limits}
use dist_cache.Cache.Shard.Accounting.{IsAccounted, size_of}
use dist_cache.Cache.Shard.Calls.{Call, run, growth}
use dist_cache.Cache.Shard.Capacity.{set_within_limits}
use dist_cache.Cache.Shard.EventLog.{replay}
use dist_cache.Cache.Shard.Evicted.{member, lookup-set}
use dist_cache.Cache.Shard.InStep.{IsInStep}
use dist_cache.Cache.Shard.Keys.{run-IsInStep}
use dist_cache.Cache.Shard.Loop.{enforce_limits_ends}
use dist_cache.Cache.Shard.Memory.{run-IsAccounted}
use dist_cache.Cache.Shard.Reads.{
  view, reads-view, sweep_expired-view, value_or_empty, time_or_zero, is_some,
}
use dist_cache.Cache.Shard.Replay.{run_all, replay-run_all}
use dist_cache.Eviction.Lru.{lru, add, evict}
use dist_cache.Eviction.Queue.{weight, take_end}
use dist_cache.Eviction.LinkedList.{push_front, last, remove}
use dist_cache.Eviction.Lru.Laws.{lru_tracking, lru_recency, lru_bounded}

abbrev a : Bytes
a = 97 ∷ []

abbrev b : Bytes
b = 98 ∷ []

-- One key, in a shard for one entry and 200 bytes.
abbrev pub full : Shard lru
full = record {
  items = (a, record { value = 120 ∷ []; expire_at = pos 5 }) ∷ [];
  policy = lru.add lru.init a;
  mem = pos 66;
  max_entries = pos 1;
  max_memory = pos 200;
  has_sink = true;
  emitted = [];
}

pub full-IsAccounted : IsAccounted full
unfolding size_of approx_size total
full-IsAccounted = record {
  distinct = (unfold lookup in refl, tt);
  account = refl;
  fits = omega arith;
}

full-IsInStep : IsInStep lru_tracking full
full-IsInStep = record {
  tracked = lru_tracking.add-IsValid lru.init a lru_tracking.init-IsValid;
  in_step = λ j.
      unfold lookup in
      ground (
        arith,
        lru_tracking.holds-add lru.init a j lru_tracking.init-IsValid,
        lru_tracking.holds-init j,
      );
}

set_evicts : (Shard.set lru b (121 ∷ []) (pos 0) full).1 ≡ a ∷ []
unfolding Shard.set add lookup push_front insert take_end last remove Bytes-discrete
    Shard.over_capacity evict weight Shard.drop_victim erase Shard.lower_mem ◌-ℤ◌ wrap ◌+ℤ◌
    approx_size
set_evicts = refl

abbrev full_entries : ℕ
full_entries = 1

set_within_limits_example :
    ((full_entries ≡ 0) ⊎ (length (Shard.set lru b (121 ∷ []) (pos 0) full).0.items ≤ full_entries))
    × ((200 < approx_size b (121 ∷ []))
        ⊎ (total size_of (Shard.set lru b (121 ∷ []) (pos 0) full).0.items ≤ 200))
set_within_limits_example =
    set_within_limits lru_bounded lru_tracking lru_recency b (121 ∷ []) (pos 0) full full_entries
      200 full-IsAccounted full-IsInStep refl refl (unfold size_of approx_size total in omega arith)

replay-run_all_example :
    lookup a (
      replay
        (run_all lru
          (Call.set a (120 ∷ []) (pos 0) ∷ Call.set b (121 ∷ []) (pos 0) ∷ [])
          (Shard.new_shard lru (pos 1) (pos 0) true)).emitted
        [])
    ≡ lookup a
        (run_all lru
          (Call.set a (120 ∷ []) (pos 0) ∷ Call.set b (121 ∷ []) (pos 0) ∷ [])
          (Shard.new_shard lru (pos 1) (pos 0) true)).items
replay-run_all_example =
    replay-run_all lru (pos 1) (pos 0)
      (Call.set a (120 ∷ []) (pos 0) ∷ Call.set b (121 ∷ []) (pos 0) ∷ []) (tt, (tt, tt)) a

lookup-set_example :
    (lookup a (Shard.set lru b (121 ∷ []) (pos 0) full).0.items ≡ (
      if member a (Shard.set lru b (121 ∷ []) (pos 0) full).1
      then none
      else ite
          (Bytes-discrete b a)
          (some (record { value = 121 ∷ []; expire_at = pos 0 }))
          (lookup a full.items)))
    × (member b (Shard.set lru b (121 ∷ []) (pos 0) full).1 ≡ false)
lookup-set_example = lookup-set b (121 ∷ []) (pos 0) full a

run-IsAccounted_example : IsAccounted (run lru (Call.set b (121 ∷ []) (pos 0)) full)
run-IsAccounted_example =
    run-IsAccounted (Call.set b (121 ∷ []) (pos 0)) full full-IsAccounted
      (unfold size_of approx_size total growth in omega arith)

run-IsInStep_example : IsInStep lru_tracking (run lru (Call.set b (121 ∷ []) (pos 0)) full)
run-IsInStep_example = run-IsInStep lru_tracking (Call.set b (121 ∷ []) (pos 0)) full full-IsInStep

reads-view_example :
    ((Shard.get lru a (pos 9) full).1 ≡ value_or_empty (view (pos 9) full.items a))
    × ((Shard.get lru a (pos 9) full).2 ≡ is_some (view (pos 9) full.items a))
    × ((Shard.exists lru a (pos 9) full).1 ≡ is_some (view (pos 9) full.items a))
    × ((Shard.ttl lru a (pos 9) full).1 ≡ time_or_zero (view (pos 9) full.items a))
    × ((Shard.ttl lru a (pos 9) full).2 ≡ is_some (view (pos 9) full.items a))
    × (view (pos 9) (Shard.get lru a (pos 9) full).0.items a ≡ view (pos 9) full.items a)
    × (view (pos 9) (Shard.exists lru a (pos 9) full).0.items a ≡ view (pos 9) full.items a)
    × (view (pos 9) (Shard.ttl lru a (pos 9) full).0.items a ≡ view (pos 9) full.items a)
reads-view_example = reads-view a (pos 9) full a

sweep_expired-view_example :
    view (pos 9) (Shard.sweep_expired lru (pos 9) 20 full).0.items a ≡ view (pos 9) full.items a
sweep_expired-view_example = sweep_expired-view (pos 9) 20 full a full-IsAccounted.distinct

enforce_limits_ends_example : evict_loop lru 9 b full [] ≡ enforce_limits lru b full
enforce_limits_ends_example =
    enforce_limits_ends lru b lru_bounded 9 full
      (unfold weight add push_front lookup in omega arith)
