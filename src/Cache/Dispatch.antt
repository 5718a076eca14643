-- ===== src/Cache/Dispatch.antt =====
-- cache.go: the goroutine that numbers the events of the shards and hands them to the
-- subscribers. `S` is the state that the subscribers change.
pub mod Numbers
use dist_cache.Base.{ℕ, ◌+◌, ◌%◌, ◌^◌, List, [], ◌∷◌, ◌++◌}
use dist_cache.Cache.Item.{Event}

-- What the channel of the cache carries: an event, or the mark by which `Sync` waits.
pub data Message : Type 0 where
  event : Event → Message
  ack : Message

module _ (S : Type 0) where
  pub record Dispatcher : Type 0 where
    -- the number of the last event, which `Seq` reads between two events
    pub seq : ℕ
    pub subscribers : List (Event → S → S)
    pub state : S

  unfoldable pub subscribe : (Event → S → S) → Dispatcher → Dispatcher
  subscribe fn d = record d { subscribers = d.subscribers ++ fn ∷ [] }

  unfoldable pub tell : List (Event → S → S) → Event → S → S
  tell [] ev s = s
  tell (fn ∷ fns) ev s = tell fns ev (fn ev s)

  -- `fan`: a mark is only answered.
  unfoldable pub fan : Message → Dispatcher → Dispatcher
  unfolding tell
  fan ack d = d
  fan (event ev) d =
      let n = (d.seq + 1) % 2 ^ 64 in
      record d { seq = n; state = tell d.subscribers (record ev { seq = n }) d.state }

  unfoldable pub dispatch : List Message → Dispatcher → Dispatcher
  unfolding fan
  dispatch [] d = d
  dispatch (m ∷ ms) d = dispatch ms (fan m d)
