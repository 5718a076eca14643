-- ===== src/Cache/Shard/Accounting.antt =====
-- The memory counter of a shard, under any eviction policy.
use dist_cache.Base.{
  sym, ℕ, suc, ◌∙◌, ◌+◌, ◌-◌, ◌^◌, ◌≤◌, ◌<◌, ◌≡◌, refl, none, some, List, [], ◌∷◌, length, arith,
  Bytes, bytes_eq, Option-cases, inl, inr, ap,
}
use dist_cache.Base.Assoc.{
  Assoc, lookup, insert, erase, total, Distinct, Distinct-insert, Distinct-erase, total-insert_new,
  total-insert_old, total-erase,
}
use dist_cache.Base.Int64.{ℤ, pos, ◌+ℤ◌, ◌-ℤ◌, +ℤ-pos, -ℤ-pos, wrap}
use dist_cache.Cache.Item.{Item, approx_size, Event, del_event}
use dist_cache.Cache.Shard.{
  Shard, emit, lower_mem, remove_locked, set_locked, drop_victim, enforce_limits, emit_dels,
}
use dist_cache.Cache.Shard.Loop.{evict_rule}
use dist_cache.Eviction.Policy.{Policy}

unfoldable pub size_of : Bytes → Item → ℕ
size_of k it = approx_size k it.value

-- Every key is bound once, and the counter is the exact sum of the sizes of the items.
pub record IsAccounted {p : Policy} (s : Shard p) : Type 0 where
  pub distinct : Distinct s.items
  pub account : s.mem ≡ pos (total size_of s.items)
  pub fits : total size_of s.items < 2 ^ 63

lower_mem_exact : (t n : ℕ) → n ≤ t → t < 2 ^ 63 → lower_mem (pos t) n ≡ pos (t - n)
unfolding lower_mem
lower_mem_exact t n h b = ground (arith, -ℤ-pos t n)

replace_exact : (t a b : ℕ) → b ≤ t → t + a < 2 ^ 63 → pos t +ℤ (pos a -ℤ pos b) ≡ pos (t + a - b)
unfolding ◌+ℤ◌ ◌-ℤ◌ wrap
replace_exact t a b h fit = ground arith

-- Taking an item out, with its size.
module _ {p : Policy} (s : Shard p) (v : IsAccounted s) (k : Bytes) (it : Item)
    (e : lookup k s.items ≡ some it) where
  total_out : total size_of (erase k s.items) + size_of k it ≡ total size_of s.items
  total_out = total-erase size_of k it s.items v.distinct e

  mem_out : lower_mem s.mem (approx_size k it.value) ≡ pos (total size_of (erase k s.items))
  unfolding size_of
  mem_out = rw v.account (
      lower_mem_exact (total size_of s.items) (approx_size k it.value) (omega (arith, total_out))
        v.fits
      ∙ ap pos (omega (arith, total_out)))

  out-IsAccounted :
      (st : p.State)
      → IsAccounted (record s {
        items = erase k s.items;
        policy = st;
        mem = lower_mem s.mem (approx_size k it.value);
      })
  out-IsAccounted st = record {
    distinct = Distinct-erase k s.items v.distinct;
    account = mem_out;
    fits = omega (arith, total_out, v.fits);
  }

  pub remove_locked-IsAccounted : IsAccounted (remove_locked p k it s)
  unfolding remove_locked
  remove_locked-IsAccounted = out-IsAccounted (p.remove s.policy k)

  pub remove_locked-le : total size_of (remove_locked p k it s).items ≤ total size_of s.items
  unfolding remove_locked
  remove_locked-le = omega (arith, total_out)

-- The policy, the events and the limits are no part of the account.
pub IsAccounted-same :
    {p : Policy} (s t : Shard p) → t.items ≡ s.items → t.mem ≡ s.mem → IsAccounted s → IsAccounted t
IsAccounted-same s t ei em v = record {
  distinct = rw ei v.distinct;
  account = rw (ei, em) v.account;
  fits = rw ei v.fits;
}

pub emit-IsAccounted :
    {p : Policy} (ev : Event) (s : Shard p) → IsAccounted s → IsAccounted (emit p ev s)
unfolding emit
emit-IsAccounted {p} ev s v = IsAccounted-same s (emit p ev s) (ground arith) (ground arith) v

abbrev with_items : {p : Policy} → Shard p → Assoc Bytes Item → p.State → ℤ → Shard p
with_items s m st n = record s { items = m; policy = st; mem = n }

module _ {p : Policy} (s : Shard p) (v : IsAccounted s) (k : Bytes) (it : Item)
    (fit : total size_of s.items + size_of k it < 2 ^ 63) where
  new-IsAccounted :
      (st : p.State)
      → lookup k s.items ≡ none
      → IsAccounted (with_items s (insert k it s.items) st (s.mem +ℤ pos (size_of k it)))
  new-IsAccounted st e = record {
    distinct = Distinct-insert k it s.items v.distinct;
    account = rw v.account (
        +ℤ-pos (total size_of s.items) (size_of k it) fit
        ∙ ap pos (sym (total-insert_new size_of k it s.items e)));
    fits = omega (arith, total-insert_new size_of k it s.items e);
  }

  old-IsAccounted :
      (st : p.State) (old : Item)
      → lookup k s.items ≡ some old
      → IsAccounted (
          with_items s
            (insert k it s.items)
            st
            (s.mem +ℤ (pos (length it.value) -ℤ pos (length old.value))))
  unfolding size_of approx_size
  old-IsAccounted st old e =
      let out : total size_of (erase k s.items) + size_of k old ≡ total size_of s.items =
        total-erase size_of k old s.items v.distinct e in
      let swap : total size_of (insert k it s.items) + size_of k old
          ≡ total size_of s.items + size_of k it =
        total-insert_old size_of k it old s.items e in
      record {
        distinct = Distinct-insert k it s.items v.distinct;
        account = rw v.account (
            replace_exact (total size_of s.items) (length it.value) (length old.value) (omega arith)
              (omega arith)
            ∙ ap pos (omega arith));
        fits = omega arith;
      }

module _ {p : Policy} (s : Shard p) (v : IsAccounted s) (k : Bytes) where
  pub set_locked-IsAccounted :
      (value : Bytes) (e : ℤ)
      → total size_of s.items + approx_size k value < 2 ^ 63
      → IsAccounted (set_locked p k value e s)
  unfolding set_locked size_of
  set_locked-IsAccounted value e fit = elim (Option-cases (lookup k s.items)) [
    | inl none_there ↦
        rw (none_there, set_locked)
          (new-IsAccounted s v k (record { value = value; expire_at = e }) fit _ none_there)
    | inr (old, there) ↦
        rw (there, set_locked)
          (old-IsAccounted s v k (record { value = value; expire_at = e }) fit _ old there)
  ]

  drop_victim-IsAccounted : (ev : List Bytes) → IsAccounted (drop_victim p k s ev).0
  unfolding drop_victim
  drop_victim-IsAccounted ev = elim (Option-cases (lookup k s.items)) [
    | inl e ↦ rw (e, drop_victim) v
    | inr (it, e) ↦ rw (e, drop_victim) (out-IsAccounted s v k it e s.policy)
  ]

pub enforce_limits-IsAccounted :
    {p : Policy} (k : Bytes) (s : Shard p) → IsAccounted s → IsAccounted (enforce_limits p k s).0
unfolding enforce_limits
enforce_limits-IsAccounted {p} k s v =
    evict_rule p k (λ s ev. IsAccounted s)
      (record {
        none_left = λ s ev v over e. IsAccounted-same s _ refl refl v;
        kept = λ s ev v over e. IsAccounted-same s _ refl refl v;
        dropped = λ s ev w v over e other.
            drop_victim-IsAccounted _ (IsAccounted-same s _ refl refl v) w ev;
      })
      (suc (p.weight s.policy)) s [] v

pub emit_dels-IsAccounted :
    {p : Policy} (ks : List Bytes) (s : Shard p) → IsAccounted s → IsAccounted (emit_dels p ks s)
unfolding emit_dels emit
emit_dels-IsAccounted [] s v = v
emit_dels-IsAccounted {p} (k ∷ ks) s v =
    emit_dels-IsAccounted ks (emit p (del_event k) s) (emit-IsAccounted (del_event k) s v)
