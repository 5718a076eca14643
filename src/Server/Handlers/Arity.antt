-- ===== src/Server/Handlers/Arity.antt =====
-- The numbers of arguments that the handlers take.
use dist_cache.Base.{
  ℕ, ◌%◌, ◌≡◌, refl, subst, ap, sym, ◌∙◌, Bool, true, false, ◌&&◌, Option, none, some, List, [],
  ◌∷◌, Bytes, All, length, Bytes-discrete, ℕ_discrete, bytes_eq, leb, ◌==◌, arith,
}
use dist_cache.Base.Assoc.{Assoc, lookup}
use dist_cache.Base.Int64.{ℤ, pos, negsuc}
use dist_cache.Base.Text.{text}
use dist_cache.Eviction.Policy.{Policy}
use dist_cache.Server.Handlers.{
  Handler, handler_table, handlers, cmd_echo, cmd_set, cmd_get, cmd_del, cmd_exists, incr_step,
  incr_explicit, cmd_mset, cmd_mget, expire_unit, ttl_unit, cmd_persist, cmd_type,
}
use dist_cache.Server.Reply.{error}
use dist_cache.Server.World.{Env, World, second, millisecond}

-- How many words a command may have, its name among them.
pub data Arity : Type 0 where
  exactly : ℕ → Arity
  at_least : ℕ → Arity
  odd_from : ℕ → Arity

abbrev pub admits : Arity → ℕ → Bool
admits (exactly k) n = n == k
admits (at_least k) n = leb k n
admits (odd_from k) n = leb k n && (n % 2 == 1)

-- The commands of the table that are particular about it.
abbrev pub arities : Assoc Bytes Arity
arities =
    (text "ECHO", exactly 2)
    ∷ (text "SET", at_least 3)
    ∷ (text "GET", exactly 2)
    ∷ (text "DEL", at_least 2)
    ∷ (text "EXISTS", at_least 2)
    ∷ (text "INCR", exactly 2)
    ∷ (text "DECR", exactly 2)
    ∷ (text "INCRBY", exactly 3)
    ∷ (text "DECRBY", exactly 3)
    ∷ (text "MSET", odd_from 3)
    ∷ (text "MGET", at_least 2)
    ∷ (text "EXPIRE", exactly 3)
    ∷ (text "PEXPIRE", exactly 3)
    ∷ (text "TTL", exactly 2)
    ∷ (text "PTTL", exactly 2)
    ∷ (text "PERSIST", exactly 2)
    ∷ (text "TYPE", exactly 2)
    ∷ []

unfoldable pub takes : Bytes → ℕ → Bool
takes name n = elim (lookup name arities) as (λ _. Bool) [ none ↦ true | some a ↦ admits a n ]

module _ (e : Env) (p : Policy) where
  -- An error is the whole effect.
  Refuses : Handler p → List Bytes → World p → Type 0
  Refuses h args w = (why : Bytes) × (h args w ≡ (w, error why))

  cmd_echo-Refuses :
      (args : List Bytes) (w : World p) → (length args == 2) ≡ false → Refuses (cmd_echo e) args w
  unfolding Refuses cmd_echo
  cmd_echo-Refuses [] w h = (_, refl)
  cmd_echo-Refuses (_ ∷ []) w h = (_, refl)
  cmd_echo-Refuses (_ ∷ _ ∷ []) w h = absurd (ground (arith, h))
  cmd_echo-Refuses (_ ∷ _ ∷ _ ∷ _) w h = (_, refl)

  cmd_set-Refuses :
      (args : List Bytes) (w : World p) → leb 3 (length args) ≡ false → Refuses (cmd_set e) args w
  unfolding Refuses cmd_set
  cmd_set-Refuses [] w h = (_, refl)
  cmd_set-Refuses (_ ∷ []) w h = (_, refl)
  cmd_set-Refuses (_ ∷ _ ∷ []) w h = (_, refl)
  cmd_set-Refuses (_ ∷ _ ∷ _ ∷ _) w h = absurd (ground (arith, h))

  cmd_del-Refuses :
      (args : List Bytes) (w : World p) → leb 2 (length args) ≡ false → Refuses (cmd_del e) args w
  unfolding Refuses cmd_del
  cmd_del-Refuses [] w h = (_, refl)
  cmd_del-Refuses (_ ∷ []) w h = (_, refl)
  cmd_del-Refuses (_ ∷ _ ∷ _) w h = absurd (ground (arith, h))

  cmd_mset-Refuses :
      (args : List Bytes) (w : World p)
      → (leb 3 (length args) && (length args % 2 == 1)) ≡ false
      → Refuses (cmd_mset e) args w
  unfolding Refuses cmd_mset
  cmd_mset-Refuses args w h = (text "ERR wrong number of arguments for 'mset'", ground (arith, h))

  cmd_get-Refuses :
      (args : List Bytes) (w : World p) → (length args == 2) ≡ false → Refuses (cmd_get e) args w
  unfolding Refuses cmd_get
  cmd_get-Refuses [] w h = (_, refl)
  cmd_get-Refuses (_ ∷ []) w h = (_, refl)
  cmd_get-Refuses (_ ∷ _ ∷ []) w h = absurd (ground (arith, h))
  cmd_get-Refuses (_ ∷ _ ∷ _ ∷ _) w h = (_, refl)

  cmd_persist-Refuses :
      (args : List Bytes) (w : World p)
      → (length args == 2) ≡ false
      → Refuses (cmd_persist e) args w
  unfolding Refuses cmd_persist
  cmd_persist-Refuses [] w h = (_, refl)
  cmd_persist-Refuses (_ ∷ []) w h = (_, refl)
  cmd_persist-Refuses (_ ∷ _ ∷ []) w h = absurd (ground (arith, h))
  cmd_persist-Refuses (_ ∷ _ ∷ _ ∷ _) w h = (_, refl)

  cmd_type-Refuses :
      (args : List Bytes) (w : World p) → (length args == 2) ≡ false → Refuses (cmd_type e) args w
  unfolding Refuses cmd_type
  cmd_type-Refuses [] w h = (_, refl)
  cmd_type-Refuses (_ ∷ []) w h = (_, refl)
  cmd_type-Refuses (_ ∷ _ ∷ []) w h = absurd (ground (arith, h))
  cmd_type-Refuses (_ ∷ _ ∷ _ ∷ _) w h = (_, refl)

  incr_step-Refuses :
      (step : ℤ) (args : List Bytes) (w : World p)
      → (length args == 2) ≡ false
      → Refuses (incr_step e step) args w
  unfolding Refuses incr_step
  incr_step-Refuses step [] w h = (_, refl)
  incr_step-Refuses step (_ ∷ []) w h = (_, refl)
  incr_step-Refuses step (_ ∷ _ ∷ []) w h = absurd (ground (arith, h))
  incr_step-Refuses step (_ ∷ _ ∷ _ ∷ _) w h = (_, refl)

  ttl_unit-Refuses :
      (unit : ℕ) (args : List Bytes) (w : World p)
      → (length args == 2) ≡ false
      → Refuses (ttl_unit e unit) args w
  unfolding Refuses ttl_unit
  ttl_unit-Refuses unit [] w h = (_, refl)
  ttl_unit-Refuses unit (_ ∷ []) w h = (_, refl)
  ttl_unit-Refuses unit (_ ∷ _ ∷ []) w h = absurd (ground (arith, h))
  ttl_unit-Refuses unit (_ ∷ _ ∷ _ ∷ _) w h = (_, refl)

  incr_explicit-Refuses :
      (args : List Bytes) (w : World p)
      → (length args == 3) ≡ false
      → Refuses (incr_explicit e) args w
  unfolding Refuses incr_explicit
  incr_explicit-Refuses [] w h = (_, refl)
  incr_explicit-Refuses (_ ∷ []) w h = (_, refl)
  incr_explicit-Refuses (_ ∷ _ ∷ []) w h = (_, refl)
  incr_explicit-Refuses (_ ∷ _ ∷ _ ∷ []) w h = absurd (ground (arith, h))
  incr_explicit-Refuses (_ ∷ _ ∷ _ ∷ _ ∷ _) w h = (_, refl)

  expire_unit-Refuses :
      (unit : ℕ) (args : List Bytes) (w : World p)
      → (length args == 3) ≡ false
      → Refuses (expire_unit e unit) args w
  unfolding Refuses expire_unit
  expire_unit-Refuses unit [] w h = (_, refl)
  expire_unit-Refuses unit (_ ∷ []) w h = (_, refl)
  expire_unit-Refuses unit (_ ∷ _ ∷ []) w h = (_, refl)
  expire_unit-Refuses unit (_ ∷ _ ∷ _ ∷ []) w h = absurd (ground (arith, h))
  expire_unit-Refuses unit (_ ∷ _ ∷ _ ∷ _ ∷ _) w h = (_, refl)

  cmd_exists-Refuses :
      (args : List Bytes) (w : World p)
      → leb 2 (length args) ≡ false
      → Refuses (cmd_exists e) args w
  unfolding Refuses cmd_exists
  cmd_exists-Refuses [] w h = (_, refl)
  cmd_exists-Refuses (_ ∷ []) w h = (_, refl)
  cmd_exists-Refuses (_ ∷ _ ∷ _) w h = absurd (ground (arith, h))

  cmd_mget-Refuses :
      (args : List Bytes) (w : World p) → leb 2 (length args) ≡ false → Refuses (cmd_mget e) args w
  unfolding Refuses cmd_mget
  cmd_mget-Refuses [] w h = (_, refl)
  cmd_mget-Refuses (_ ∷ []) w h = (_, refl)
  cmd_mget-Refuses (_ ∷ _ ∷ _) w h = absurd (ground (arith, h))

  -- A row of the table that refuses what its name does not take.
  abbrev RefusesWrong : Bytes × Handler p → Type 0
  RefusesWrong (name, h) =
      (args : List Bytes) (w : World p) → takes name (length args) ≡ false → Refuses h args w

  table-RefusesWrong : All RefusesWrong (handler_table e {p = p})
  unfolding handler_table takes lookup Bytes-discrete ℕ_discrete
  table-RefusesWrong = (
    λ args w h. absurd (ground (arith, h)),
    (
      cmd_echo-Refuses,
      (
        cmd_set-Refuses,
        (
          cmd_get-Refuses,
          (
            cmd_del-Refuses,
            (
              cmd_exists-Refuses,
              (
                incr_step-Refuses (pos 1),
                (
                  incr_step-Refuses (negsuc 0),
                  (
                    incr_explicit-Refuses,
                    (
                      incr_explicit-Refuses,
                      (
                        cmd_mset-Refuses,
                        (
                          cmd_mget-Refuses,
                          (
                            expire_unit-Refuses second,
                            (
                              expire_unit-Refuses millisecond,
                              (
                                ttl_unit-Refuses second,
                                (
                                  ttl_unit-Refuses millisecond,
                                  (
                                    cmd_persist-Refuses,
                                    (
                                      (λ args w h. absurd (ground (arith, h))),
                                      (
                                        (λ args w h. absurd (ground (arith, h))),
                                        (
                                          cmd_type-Refuses,
                                          ((λ args w h. absurd (ground (arith, h))), tt),
                                        ),
                                      ),
                                    ),
                                  ),
                                ),
                              ),
                            ),
                          ),
                        ),
                      ),
                    ),
                  ),
                ),
              ),
            ),
          ),
        ),
      ),
    ),
  )

  if_pos_at :
      (k name : Bytes)
      → k ≡ name
      → (g : Handler p) (rows : Assoc Bytes (Handler p)) → lookup name ((k, g) ∷ rows) ≡ some g
  unfolding lookup
  if_pos_at k name h g rows = ground (arith, h)

  if_neg_at :
      (k name : Bytes)
      → ¬ (k ≡ name)
      → (g : Handler p) (rows : Assoc Bytes (Handler p))
      → lookup name ((k, g) ∷ rows) ≡ lookup name rows
  unfolding lookup
  if_neg_at k name h g rows = ground (arith, h)

  some_inj : {g h : Handler p} → some g ≡ some h → g ≡ h
  some_inj {g} q =
      ap (λ (o : Option (Handler p)). elim o as (λ _. Handler p) [ none ↦ g | some x ↦ x ]) q

  lookup-All :
      (rows : Assoc Bytes (Handler p)) (name : Bytes) (h : Handler p)
      → All RefusesWrong rows
      → lookup name rows ≡ some h
      → RefusesWrong (name, h)
  unfolding lookup
  lookup-All [] name h a f = absurd (ground (arith, f))
  lookup-All ((k, g) ∷ rows) name h a f = elim (Bytes-discrete k name) [
    | yes same_name ↦
        subst (λ n. RefusesWrong (n, h)) same_name
          (subst (λ x. RefusesWrong (k, x)) (some_inj (sym (if_pos_at k name same_name g rows) ∙ f))
            a.0)
    | no other ↦ lookup-All rows name h a.1 (sym (if_neg_at k name other g rows) ∙ f)
  ]

-- The commands of the table are refused for a wrong number of words: DEL, EXISTS and MGET want two
-- at least, SET three at least, MSET an odd number from three on, ECHO, GET, INCR, DECR, TTL, PTTL,
-- PERSIST and TYPE two, and INCRBY, DECRBY, EXPIRE and PEXPIRE three. With another number the
-- handler replies with an error and does nothing: the cache and the clock are as they were.
pub handlers-Refuses :
    (e : Env) (p : Policy) (name : Bytes) (h : Handler p) (args : List Bytes) (w : World p)
    → handlers e {p = p} name ≡ some h
    → takes name (length args) ≡ false
    → (why : Bytes) × (h args w ≡ (w, error why))
unfolding handlers Refuses
handlers-Refuses e p name h args w f wrong =
    lookup-All e p (handler_table e {p = p}) name h (table-RefusesWrong e p) f args w wrong
