-- ===== src/Inspect.antt =====
-- The addresses of blocks and of extrinsics that the sub-command `inspect` reads
-- (inspect/src/command.rs). A text is the list of its characters. How hashes, numbers and hexadecimal
-- bytes are read is a parameter.
pub mod Address
pub mod Printer
pub mod Consistency
mod Tests
use akropolis_os_chain_node.Common.{
  ℕ, ◌+◌, ◌-◌, ◌*◌, Bool, true, false, ◌||◌, ◌&&◌, List, [], ◌∷◌, Option, none, some, ◌⊎◌, inl, inr,
  ltb, leb, ◌==◌, if◌then◌else◌,
}
use akropolis_os_chain_node.Common.Words.{u64_mod}
use akropolis_os_chain_node.Common.Result.{Result, ok, err, ◌>>=◌}

-- `BlockAddress`
pub data BlockAddress (Hash Number : Type 0) : Type 0 where
  hash : Hash → BlockAddress Hash Number
  number : Number → BlockAddress Hash Number
  bytes : List ℕ → BlockAddress Hash Number

-- `ExtrinsicAddress`
pub data ExtrinsicAddress (Hash Number : Type 0) : Type 0 where
  block : BlockAddress Hash Number → ℕ → ExtrinsicAddress Hash Number
  bytes : List ℕ → ExtrinsicAddress Hash Number

-- The messages of the two readers. That of a bad index leaves out which number error it was.
pub data ParseError (H : Type 0) : Type 0 where
  not_an_address : H → ParseError H
  index_missing : ParseError H
  invalid_index : List ℕ → ParseError H

-- How the node reads a hash, the number of a block and hexadecimal bytes; the last one tells
-- what is wrong.
pub record Readers (Hash Number H : Type 0) : Type 0 where
  pub hash : List ℕ → Option Hash
  pub number : List ℕ → Option Number
  pub from_hex : List ℕ → H ⊎ List ℕ

-- '.', ':' and ' '
abbrev pub is_separator : ℕ → Bool
is_separator c = (c == 46) || ((c == 58) || (c == 32))

-- `text.split(is_separator)`: the first item of the iterator, which there always is, and the others.
unfoldable pub split : List ℕ → List ℕ × List (List ℕ)
split [] = ([], [])
split (c ∷ text) =
    let (first, rest) = split text in
    if is_separator c then ([], first ∷ rest) else (c ∷ first, rest)

-- The digits of a `usize` after those that were read.
unfoldable pub parse_digits : ℕ → List ℕ → Option ℕ
parse_digits n [] = some n
parse_digits n (c ∷ text) =
    let next = n * 10 + (c - 48) in
    let rest = parse_digits next text in
    if leb 48 c && (leb c 57 && ltb next u64_mod) then rest else none

-- `text.parse::<usize>()`, which takes one plus sign before the digits.
unfoldable pub parse_usize : List ℕ → Option ℕ
unfolding parse_digits
parse_usize [] = none
parse_usize (c ∷ []) = if c == 43 then none else parse_digits 0 (c ∷ [])
parse_usize (c ∷ d ∷ text) =
    if c == 43 then parse_digits 0 (d ∷ text) else parse_digits 0 (c ∷ d ∷ text)

module _ {Hash Number H : Type 0} (readers : Readers Hash Number H) where
  -- `from_str` of BlockAddress
  unfoldable pub parse_block_address : List ℕ → Result (ParseError H) (BlockAddress Hash Number)
  parse_block_address text = elim (readers.hash text) [
    | some h ↦ ok (BlockAddress.hash h)
    | none ↦ elim (readers.number text) [
      | some n ↦ ok (BlockAddress.number n)
      | none ↦ elim (readers.from_hex text) [
        | inl e ↦ err (ParseError.not_an_address e)
        | inr encoded ↦ ok (BlockAddress.bytes encoded)
      ]
    ]
  ]

  -- What `from_str` of ExtrinsicAddress does with the items of the split.
  unfoldable pub parse_items :
      List ℕ × List (List ℕ) → Result (ParseError H) (ExtrinsicAddress Hash Number)
  unfolding parse_block_address parse_usize
  parse_items (first, rest) = do
    address ← parse_block_address first
    elim rest [
      | [] ↦ err ParseError.index_missing
      | second ∷ _ ↦ elim (parse_usize second) [
        | none ↦ err (ParseError.invalid_index second)
        | some index ↦ ok (ExtrinsicAddress.block address index)
      ]
    ]

  -- `from_str` of ExtrinsicAddress
  unfoldable pub parse_extrinsic_address :
      List ℕ → Result (ParseError H) (ExtrinsicAddress Hash Number)
  unfolding parse_items split
  parse_extrinsic_address text = elim (readers.from_hex text) [
    | inr encoded ↦ ok (ExtrinsicAddress.bytes encoded)
    | inl _ ↦ parse_items (split text)
  ]
