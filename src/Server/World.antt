-- ===== src/Server/World.antt =====
-- What the handlers of internal/server/commands.go work on: the cache, and the clock's readings
-- that are still to come.
use dist_cache.Base.{
  ℕ, suc, ◌+◌, ◌-◌, ◌*◌, Bool, true, ◌&&◌, [], ◌∷◌, Bytes, map, if◌then◌else◌, ltb, leb,
}
use dist_cache.Base.Int64.{ℤ, pos, negsuc, wrap, ltz}
use dist_cache.Cache.Store.{Cache}
use dist_cache.Eviction.Policy.{Policy}

-- What the Go library and its run time give: the hash of the cache, `strings.ToUpper` on texts
-- that are not ASCII, `filepath.Match` of a pattern and a name, false on an error, the version of
-- the run time, and `%.4f` of the quotient of two numbers.
pub record Env : Type 0 where
  pub hash : Bytes → ℕ
  pub upper_wide : Bytes → Bytes
  pub matches : Bytes → Bytes → Bool
  pub go_version : Bytes
  pub four_decimals : ℕ → ℕ → Bytes

pub record World (p : Policy) : Type 0 where
  pub cache : Cache p
  pub clock : ℕ → ℤ

abbrev pub is_ascii : Bytes → Bool
is_ascii [] = true
is_ascii (c ∷ cs) = ltb c 128 && is_ascii cs

abbrev pub upper_byte : ℕ → ℕ
upper_byte c = if leb 97 c && leb c 122 then c - 32 else c

abbrev pub lower_byte : ℕ → ℕ
lower_byte c = if leb 65 c && leb c 90 then c + 32 else c

-- `strings.ToUpper`
unfoldable pub to_upper : Env → Bytes → Bytes
to_upper e s = if is_ascii s then map upper_byte s else e.upper_wide s

-- `strings.ToLower`, of the names of commands, which are ASCII.
unfoldable pub to_lower : Bytes → Bytes
to_lower s = map lower_byte s

-- `time.Duration(n) * unit` on int64, for a unit that is not 0.
unfoldable pub times : ℤ → ℕ → ℤ
times (pos n) unit = wrap (pos (n * unit))
times (negsuc n) unit = wrap (negsuc (n * unit + unit - 1))

abbrev pub second : ℕ
second = 1000000000

abbrev pub millisecond : ℕ
millisecond = 1000000

module _ {p : Policy} where
  -- A reading of the clock.
  abbrev pub now : World p → ℤ
  now w = w.clock 0

  -- The world with another cache, after a call that has read the clock once.
  abbrev pub after : Cache p → World p → World p
  after c w = record { cache = c; clock = λ n. w.clock (suc n) }

  -- The same, after a call that has read the clock only for a time to live that is positive.
  abbrev pub after_ttl : ℤ → Cache p → World p → World p
  after_ttl ttl c w = record {
    cache = c;
    clock = if ltz (pos 0) ttl then (λ n. w.clock (suc n)) else w.clock;
  }
