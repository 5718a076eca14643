-- ===== src/Resp.antt =====
-- internal/resp: the protocol between clients and the server. A connection is the bytes that have
-- still to be read; what is written is bytes too.
pub mod Fields
pub mod Reader
pub mod Writer
pub mod Lines
pub mod Commands
pub mod Value
pub mod Progress
use dist_cache.Base.{
  ℕ, ◌+◌, Bool, true, false, ◌||◌, Option, none, some, List, [], ◌∷◌, ◌++◌, Bytes, if◌then◌else◌,
  ◌==◌,
}

-- What a reading method gives: a value and the unread bytes, the end of the connection,
-- `ErrProtocol`, or the panic of a slice that is too large; `unfinished` is out of fuel.
pub data Read {ℓ} (A : Type ℓ) : Type ℓ where
  got : A → Bytes → Read A
  cut_off : Read A
  protocol_error : Read A
  panicked : Read A
  unfinished : Read A

abbrev pub is_crlf : ℕ → Bool
is_crlf c = (c == 10) || (c == 13)

-- `ReadBytes('\n')`: up to the line feed and with it; `none` is the end of the connection.
unfoldable pub cut_line : Bytes → Option (Bytes × Bytes)
cut_line [] = none
cut_line (c ∷ cs) =
    let more = cut_line cs in
    if c == 10 then some (c ∷ [], cs) else elim more as (λ _. Option (Bytes × Bytes)) [
      | none ↦ none
      | some (line, rest) ↦ some (c ∷ line, rest)
    ]

-- `trimCRLF`: without the line feeds and carriage returns at the end.
unfoldable pub trim_crlf : Bytes → Bytes
trim_crlf [] = []
trim_crlf (c ∷ cs) =
    let rest = trim_crlf cs in
    elim rest as (λ _. Bytes) [ [] ↦ if is_crlf c then [] else c ∷ [] | d ∷ ds ↦ c ∷ rest ]

unfoldable pub read_line : Bytes → Option (Bytes × Bytes)
unfolding cut_line trim_crlf
read_line bytes = elim (cut_line bytes) as (λ _. Option (Bytes × Bytes)) [
  | none ↦ none
  | some (line, rest) ↦ some (trim_crlf line, rest)
]
