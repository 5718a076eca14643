-- ===== src/Cache/Dispatch/Numbers.antt =====
-- The numbers that the events of a cache get.
use dist_cache.Base.{
  ℕ, zero, suc, ◌+◌, ◌^◌, ◌<◌, ◌≡◌, refl, sym, map, ap, ◌∙◌, List, [], ◌∷◌, length, drop, arith,
  bytes_eq,
}
use dist_cache.Cache.Item.{Event}
use dist_cache.Cache.Dispatch.{Message, event, ack, Dispatcher, tell, fan, dispatch}

-- The events numbered from `n + 1` on.
unfoldable pub number : ℕ → List Event → List Event
number n [] = []
number n (ev ∷ evs) = record ev { seq = suc n } ∷ number (suc n) evs

abbrev pub events_of : List Message → List Event
events_of [] = []
events_of (event ev ∷ ms) = ev ∷ events_of ms
events_of (ack ∷ ms) = events_of ms

module _ (S : Type 0) where
  -- Each event handed to all the subscribers in turn.
  pub tell_all : List (Event → S → S) → List Event → S → S
  tell_all fns [] s = s
  tell_all fns (ev ∷ evs) s = tell_all fns evs (tell S fns ev s)

  after_event : Event → Dispatcher S → Dispatcher S
  after_event ev d = record d {
    seq = suc d.seq;
    state = tell S d.subscribers (record ev { seq = suc d.seq }) d.state;
  }

  fan_event :
      (ev : Event) (d : Dispatcher S) → d.seq + 1 < 2 ^ 64 → fan S (event ev) d ≡ after_event ev d
  unfolding fan after_event
  fan_event ev d h =
      ap
        (λ (n : ℕ). record d {
          seq = n;
          state = tell S d.subscribers (record ev { seq = n }) d.state;
        })
        (omega (arith, h))

  -- The numbers go up by one from the last one before; the marks of `Sync` have none.
  dispatch-number :
      (ms : List Message) (d : Dispatcher S)
      → d.seq + length (events_of ms) < 2 ^ 64
      → ((dispatch S ms d).state ≡ tell_all d.subscribers (number d.seq (events_of ms)) d.state)
        × ((dispatch S ms d).seq ≡ d.seq + length (events_of ms))
  unfolding dispatch number tell_all after_event
  dispatch-number [] d h = (refl, omega arith)
  dispatch-number (ack ∷ ms) d h = dispatch-number ms d h
  dispatch-number (event ev ∷ ms) d h =
      let (told, last) = dispatch-number ms (after_event ev d) (omega (arith, h)) in
      rw (dispatch, fan_event ev d (omega (arith, h))) (told, omega (arith, last))

module _ {A : Type 0} where
  -- A subscriber that changes the first of some states, and one that leaves it alone.
  abbrev pub on_first : (Event → A → A) → Event → List A → List A
  on_first fn ev [] = []
  on_first fn ev (a ∷ sts) = fn ev a ∷ sts

  abbrev pub on_rest : (Event → List A → List A) → Event → List A → List A
  on_rest g ev [] = []
  on_rest g ev (a ∷ sts) = a ∷ g ev sts

  -- Subscribers with a state each, in order.
  abbrev pub own_states : List (Event → A → A) → List (Event → List A → List A)
  own_states [] = []
  own_states (fn ∷ fns) = on_first fn ∷ map on_rest (own_states fns)

  -- What one subscriber makes of some events.
  abbrev pub feed : (Event → A → A) → List Event → A → A
  feed fn [] a = a
  feed fn (ev ∷ evs) a = feed fn evs (fn ev a)

  -- Each subscriber on its own with all the events.
  abbrev pub feed_each : List (Event → A → A) → List Event → List A → List A
  feed_each [] evs sts = sts
  feed_each (fn ∷ fns) evs [] = []
  feed_each (fn ∷ fns) evs (a ∷ sts) = feed fn evs a ∷ feed_each fns evs sts

  tell-on_rest :
      (gs : List (Event → List A → List A)) (ev : Event) (a : A) (sts : List A)
      → tell (List A) (map on_rest gs) ev (a ∷ sts) ≡ a ∷ tell (List A) gs ev sts
  unfolding tell
  tell-on_rest [] ev a sts = refl
  tell-on_rest (g ∷ gs) ev a sts = tell-on_rest gs ev a (g ev sts)

  tell_nothing :
      (gs : List (Event → List A → List A)) (ev : Event) → tell (List A) (map on_rest gs) ev [] ≡ []
  unfolding tell
  tell_nothing [] ev = refl
  tell_nothing (g ∷ gs) ev = tell_nothing gs ev

  tell-own_states :
      (fns : List (Event → A → A)) (ev : Event) (sts : List A)
      → tell (List A) (own_states fns) ev sts ≡ feed_each fns (ev ∷ []) sts
  unfolding tell
  tell-own_states [] ev sts = refl
  tell-own_states (fn ∷ fns) ev [] = tell_nothing (own_states fns) ev
  tell-own_states (fn ∷ fns) ev (a ∷ sts) =
      tell-on_rest (own_states fns) ev (fn ev a) sts
      ∙ ap (◌∷◌ (fn ev a)) (tell-own_states fns ev sts)

  feed_each_nothing : (fns : List (Event → A → A)) (sts : List A) → feed_each fns [] sts ≡ sts
  feed_each_nothing [] sts = refl
  feed_each_nothing (fn ∷ fns) [] = refl
  feed_each_nothing (fn ∷ fns) (a ∷ sts) = ap (◌∷◌ a) (feed_each_nothing fns sts)

  feed_each-more :
      (fns : List (Event → A → A)) (ev : Event) (evs : List Event) (sts : List A)
      → feed_each fns evs (feed_each fns (ev ∷ []) sts) ≡ feed_each fns (ev ∷ evs) sts
  feed_each-more [] ev evs sts = refl
  feed_each-more (fn ∷ fns) ev evs [] = refl
  feed_each-more (fn ∷ fns) ev evs (a ∷ sts) =
      ap (◌∷◌ (feed fn evs (fn ev a))) (feed_each-more fns ev evs sts)

  tell_all-own_states :
      (fns : List (Event → A → A)) (evs : List Event) (sts : List A)
      → tell_all (List A) (own_states fns) evs sts ≡ feed_each fns evs sts
  unfolding tell_all
  tell_all-own_states fns [] sts = sym (feed_each_nothing fns sts)
  tell_all-own_states fns (ev ∷ evs) sts =
      tell_all-own_states fns evs (tell (List A) (own_states fns) ev sts)
      ∙ ap (feed_each fns evs) (tell-own_states fns ev sts)
      ∙ feed_each-more fns ev evs sts

  -- Subscribers with a state each, whatever the channel carries, while the numbers fit 64 bits:
  -- each subscriber, whichever its place, has made of its own state what it makes of all the events
  -- on its own, each event once and in the order of the channel, with numbers that go up by one
  -- from the last number before; the marks of `Sync` have no number; and the last number is that
  -- of the last event.
  pub dispatch-feed_each :
      (fns : List (Event → A → A)) (ms : List Message) (d : Dispatcher (List A))
      → d.subscribers ≡ own_states fns
      → d.seq + length (events_of ms) < 2 ^ 64
      → ((dispatch (List A) ms d).state ≡ feed_each fns (number d.seq (events_of ms)) d.state)
        × ((dispatch (List A) ms d).seq ≡ d.seq + length (events_of ms))
  dispatch-feed_each fns ms d e h =
      let (told, last) = dispatch-number (List A) ms d h in
      (
        told
            ∙ ap (λ gs. tell_all (List A) gs (number d.seq (events_of ms)) d.state) e
            ∙ tell_all-own_states fns (number d.seq (events_of ms)) d.state,
        last,
      )

length-number : (n : ℕ) (evs : List Event) → length (number n evs) ≡ length evs
unfolding number
length-number n [] = refl
length-number n (ev ∷ evs) = ap suc (length-number (suc n) evs)

number_at : {m n : ℕ} (evs : List Event) → m ≡ n → number m evs ≡ number n evs
number_at evs e = ap (λ k. number k evs) e

pub drop-number : (k n : ℕ) (evs : List Event) → drop k (number n evs) ≡ number (n + k) (drop k evs)
unfolding number
drop-number zero n evs = number_at evs (omega arith)
drop-number (suc k) n [] = refl
drop-number (suc k) n (ev ∷ evs) = drop-number k (suc n) evs ∙ number_at (drop k evs) (omega arith)
