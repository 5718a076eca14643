-- ===== src/Cache/Item.antt =====
-- item.go and event.go: what a shard stores, and what it tells its subscribers.
use dist_cache.Base.{ℕ, ◌+◌, Bool, not, ◌&&◌, Bytes, length, [], ◌∷◌, if◌then◌else◌, ◌==◌}
use dist_cache.Base.Int64.{ℤ, pos, is_zero, lez}

pub record Item : Type 0 where
  pub value : Bytes
  pub expire_at : ℤ

-- `it.expireAt != 0 && now >= it.expireAt`
unfoldable pub expired : Item → ℤ → Bool
expired it now = not (is_zero it.expire_at) && lez it.expire_at now

abbrev pub entry_overhead : ℕ
entry_overhead = 64

unfoldable pub approx_size : Bytes → Bytes → ℕ
approx_size key value = length key + length value + entry_overhead

-- A `uint8`: a decoded event may carry any byte.
abbrev pub Op : Type 0
Op = ℕ

abbrev pub op_set : Op
op_set = 0

abbrev pub op_del : Op
op_del = 1

abbrev pub op_expire : Op
op_expire = 2

abbrev pub op_flush : Op
op_flush = 3

-- `String`: the names as their ASCII codes.
unfoldable pub op_name : Op → Bytes
op_name o =
    if o == op_set
    then 83 ∷ 69 ∷ 84 ∷ []
    else if o == op_del
    then 68 ∷ 69 ∷ 76 ∷ []
    else if o == op_expire
    then 69 ∷ 88 ∷ 80 ∷ 73 ∷ 82 ∷ 69 ∷ []
    else if o == op_flush
    then 70 ∷ 76 ∷ 85 ∷ 83 ∷ 72 ∷ []
    else 85 ∷ 78 ∷ 75 ∷ 78 ∷ 79 ∷ 87 ∷ 78 ∷ []

pub record Event : Type 0 where
  pub seq : ℕ
  pub op : Op
  pub key : Bytes
  pub value : Bytes
  pub expire_at : ℤ

-- The literals of the shard's methods; a field that a literal leaves out is zero.
abbrev pub set_event : Bytes → Bytes → ℤ → Event
set_event k v e = record { seq = 0; op = op_set; key = k; value = v; expire_at = e }

abbrev pub del_event : Bytes → Event
del_event k = record { seq = 0; op = op_del; key = k; value = []; expire_at = pos 0 }

abbrev pub expire_event : Bytes → ℤ → Event
expire_event k e = record { seq = 0; op = op_expire; key = k; value = []; expire_at = e }

abbrev pub flush_event : Event
flush_event = record { seq = 0; op = op_flush; key = []; value = []; expire_at = pos 0 }
