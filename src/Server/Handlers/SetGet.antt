-- ===== src/Server/Handlers/SetGet.antt =====
-- GET after SET.
use dist_cache.Base.{
  ◌≡◌, refl, ap, ◌∙◌, Bool, true, false, Option, none, some, List, [], ◌∷◌, Bytes, Bytes-discrete,
  bytes_eq, ite, if◌then◌else◌, arith,
}
use dist_cache.Base.Int64.{ℤ, pos}
use dist_cache.Cache.Item.{Item, expired}
use dist_cache.Cache.Shard.Reads.{view, value_or_empty, is_some}
use dist_cache.Cache.Store
use dist_cache.Cache.Store.{Cache}
use dist_cache.Cache.Store.Routing.{stored, seen, new_item, stored-set_ttl, get-seen}
use dist_cache.Eviction.Policy.{Policy}
use dist_cache.Server.Handlers.{cmd_set, cmd_get, ok, stored_bulk}
use dist_cache.Server.Options.{ttl_of, read_options}
use dist_cache.Server.Reply.{Reply, nil}
use dist_cache.Server.World.{Env, World, now, after_ttl}

abbrev found_reply : Option Item → Reply
found_reply none = nil
found_reply (some it) = stored_bulk it.value

found-if :
    (b : Bool) (it : Item)
    → found_reply (if b then none else some it) ≡ (if b then nil else stored_bulk it.value)
found-if true it = refl
found-if false it = refl

ite_same : (k : Bytes) (a b : Option Item) → ite (Bytes-discrete k k) a b ≡ a
ite_same k a b = ground arith

module _ (e : Env) {p : Policy} where
  seen-stored :
      (k : Bytes) (t : ℤ) (c : Cache p) (it : Item)
      → stored e.hash c k ≡ some it
      → seen e.hash t c k ≡ (if expired it t then none else some it)
  unfolding seen stored view
  seen-stored k t c it h = rw (view, h) (ground arith)

  cmd_get-seen :
      (name k : Bytes) (w : World p)
      → (cmd_get e (name ∷ k ∷ []) w).1 ≡ found_reply (seen e.hash (now w) w.cache k)
  unfolding cmd_get
  cmd_get-seen name k w =
      let (v, f, _) = get-seen e.hash k (now w) w.cache k in
      ap (λ (b : Bool). if b then stored_bulk (Store.get e.hash k (now w) w.cache).1 else nil) f
      ∙ ap (λ (x : Bytes). if is_some (seen e.hash (now w) w.cache k) then stored_bulk x else nil) v
      ∙ by_cases (seen e.hash (now w) w.cache k)
    where
      by_cases :
          (o : Option Item)
          → (if is_some o then stored_bulk (value_or_empty o) else nil) ≡ found_reply o
      by_cases none = refl
      by_cases (some it) = refl

  cmd_set-ttl :
      (name k v : Bytes) (opts : List Bytes) (t : ℤ) (w : World p)
      → read_options e (pos 0) opts ≡ ttl_of t
      → cmd_set e (name ∷ k ∷ v ∷ opts) w
        ≡ (after_ttl t (Store.set_ttl e.hash k v t (now w) w.cache) w, ok)
  unfolding cmd_set
  cmd_set-ttl name k v opts t w h = rw (cmd_set, h) refl

  -- SET with options that give a time to live, 0 without options, replies OK. A GET of the key that
  -- follows replies by the next reading of the clock, of which SET takes one only for a time to
  -- live that is positive: nil when the item has expired at it, or when the value is empty, and
  -- the value otherwise.
  pub cmd_get-cmd_set :
      (name name' k v : Bytes) (opts : List Bytes) (t : ℤ) (w : World p)
      → read_options e (pos 0) opts ≡ ttl_of t
      → ((cmd_set e (name ∷ k ∷ v ∷ opts) w).1 ≡ ok)
        × ((cmd_get e (name' ∷ k ∷ []) (cmd_set e (name ∷ k ∷ v ∷ opts) w).0).1 ≡ (
            if expired (new_item v t (w.clock 0)) (now (after_ttl t w.cache w))
            then nil
            else stored_bulk v))
  cmd_get-cmd_set name name' k v opts t w h =
      let w' = after_ttl t (Store.set_ttl e.hash k v t (now w) w.cache) w in
      let set : cmd_set e (name ∷ k ∷ v ∷ opts) w ≡ (w', ok) = cmd_set-ttl name k v opts t w h in
      rw set (
        refl,
        cmd_get-seen name' k w'
            ∙ ap found_reply (
                seen-stored k (now w') (Store.set_ttl e.hash k v t (now w) w.cache)
                  (new_item v t (now w))
                  (stored-set_ttl e.hash k v t (now w) w.cache k ∙ ite_same k _ _))
            ∙ found-if (expired (new_item v t (w.clock 0)) (now w')) (new_item v t (w.clock 0)),
      )
