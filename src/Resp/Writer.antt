-- ===== src/Resp/Writer.antt =====
-- resp.go and reply.go: what the writer puts on a connection.
use dist_cache.Base.{Option, none, some, List, [], ◌∷◌, ◌++◌, Bytes, length, if◌then◌else◌}
use dist_cache.Base.Decimal.{format_int}
use dist_cache.Base.Int64.{ℤ, pos, ltz}

abbrev pub crlf : Bytes
crlf = 13 ∷ 10 ∷ []

unfoldable pub write_simple : Bytes → Bytes
write_simple s = b'+' ∷ (s ++ crlf)

unfoldable pub write_error : Bytes → Bytes
write_error s = b'-' ∷ (s ++ crlf)

unfoldable pub write_int : ℤ → Bytes
write_int n = b':' ∷ (format_int n ++ crlf)

unfoldable pub write_nil : Bytes
write_nil = b'$' ∷ b'-' ∷ b'1' ∷ crlf

-- A bulk of bytes that are not nil.
unfoldable pub write_bytes : Bytes → Bytes
write_bytes b = b'$' ∷ (format_int (pos (length b)) ++ (crlf ++ (b ++ crlf)))

unfoldable pub write_bulk : Option Bytes → Bytes
unfolding write_nil write_bytes
write_bulk none = write_nil
write_bulk (some b) = write_bytes b

unfoldable pub write_array_header : ℤ → Bytes
write_array_header n =
    if ltz n (pos 0) then b'*' ∷ b'-' ∷ b'1' ∷ crlf else b'*' ∷ (format_int n ++ crlf)

unfoldable pub write_args : List Bytes → Bytes
unfolding write_bytes
write_args [] = []
write_args (a ∷ rest) = write_bytes a ++ write_args rest

-- `WriteCommand`.
unfoldable pub write_command : List Bytes → Bytes
unfolding write_array_header write_args
write_command args = write_array_header (pos (length args)) ++ write_args args
