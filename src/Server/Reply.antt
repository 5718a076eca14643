-- ===== src/Server/Reply.antt =====
-- The replies of commands.go, and how `writeReply` writes them.
pub mod RoundTrip
use dist_cache.Base.{ℕ, suc, Bool, Option, none, some, List, [], ◌∷◌, ◌++◌, Bytes}
use dist_cache.Base.Int64.{ℤ, pos, negsuc}
use dist_cache.Resp.Writer.{
  write_simple, write_error, write_int, write_bytes, write_nil, write_array_header,
}

-- The kinds that the constructors of commands.go make: `rBulk` gives `nil` for a nil slice.
mutual
  pub data Reply : Type 0 where
    simple : Bytes → Reply
    error : Bytes → Reply
    int : ℤ → Reply
    bulk : Bytes → Reply
    nil : Reply
    array : Replies → Reply
    nil_array : Reply

  pub data Replies : Type 0 where
    end : Replies
    more : Reply → Replies → Replies

abbrev pub replies : List Reply → Replies
replies [] = end
replies (r ∷ rs) = more r (replies rs)

abbrev pub count : Replies → ℕ
count end = 0
count (more r rs) = suc (count rs)

unfoldable mutual
  unfolding write_simple write_error write_int write_bytes write_nil write_array_header

  pub write_reply : Reply → Bytes
  write_reply (simple s) = write_simple s
  write_reply (error s) = write_error s
  write_reply (int n) = write_int n
  write_reply (bulk b) = write_bytes b
  write_reply nil = write_nil
  write_reply (array rs) = write_array_header (pos (count rs)) ++ write_replies rs
  write_reply nil_array = write_array_header (negsuc 0)

  pub write_replies : Replies → Bytes
  write_replies end = []
  write_replies (more r rs) = write_reply r ++ write_replies rs
