-- ===== src/Inspect/Tests.antt =====
-- The theorems on `inspect` at concrete texts, and the cases of the tests in inspect/src/command.rs.
use akropolis_os_chain_node.Common.{
  true, false, ℕ, ◌-◌, ◌≡◌, ◌↔◌, List, [], ◌∷◌, ◌++◌, none, some, ◌⊎◌, inl, inr, refl, map, ◌==◌,
  ◌&&◌, if◌then◌else◌,
}
use akropolis_os_chain_node.Common.Result.{ok, err}
use akropolis_os_chain_node.Inspect.{
  BlockAddress, ExtrinsicAddress, ParseError, Readers, is_separator, parse_usize,
  parse_extrinsic_address,
}
use akropolis_os_chain_node.Inspect.Address.{
  IsAddressOf, IsTail, NotHex, has_separator, parse_extrinsic_address_iff,
}
use akropolis_os_chain_node.Inspect.Printer.{
  Chain, BlockId, Line, InspectSubCmd, run, get_extrinsic, debug_extrinsic, debug_printer,
}
use akropolis_os_chain_node.Inspect.Consistency.{run-debug_printer}

-- What follows "0x" is taken as bytes, and no text as a hash.
abbrev from_hex : List ℕ → ℕ ⊎ List ℕ
from_hex (a ∷ b ∷ text) = if a == 48 && b == 120 then inr (map (λ c. c - 48) text) else inl 0
from_hex _ = inl 0

abbrev readers : Readers ℕ ℕ ℕ
unfolding parse_usize
readers = record { hash = λ _. none; number = parse_usize; from_hex = from_hex }

-- Block 12 has the extrinsics 7, 8 and 9, and no other block is there.
abbrev chain : Chain ℕ ℕ ℕ ℕ (ℕ × List ℕ) ℕ
chain = record {
  block_body = λ id. elim id [
    | BlockId.hash _ ↦ ok none
    | BlockId.number n ↦ ok (if n == 12 then some (7 ∷ 8 ∷ 9 ∷ []) else none)
  ];
  header = λ _. ok (some 3);
  new = λ h body. (h, body);
  header_of = λ (h, _). h;
  extrinsics = λ (_, body). body;
  decode_block = λ _. err 1;
  encode_block = λ (h, body). h ∷ body;
  decode_extrinsic = λ _. err 1;
  encode_extrinsic = λ x. x ∷ [];
}

-- "12:1"
abbrev text : List ℕ
text = 49 ∷ 50 ∷ 58 ∷ 49 ∷ []

parse_extrinsic_address_iff_example :
    (parse_extrinsic_address readers text ≡ ok (ExtrinsicAddress.block (BlockAddress.number 12) 1))
    ↔ (NotHex readers text × IsAddressOf readers text (BlockAddress.number 12) 1)
parse_extrinsic_address_iff_example =
    parse_extrinsic_address_iff readers text (BlockAddress.number 12) 1

run-debug_printer_example :
    (first : List ℕ) × (c : ℕ) × (second : List ℕ) × (tail : List ℕ) × (index : ℕ) × (before : List
      (Line ℕ ℕ))
    × (after : List (Line ℕ ℕ)) × (text ≡ first ++ c ∷ (second ++ tail))
    × (has_separator first ≡ false)
    × (is_separator c ≡ true)
    × (has_separator second ≡ false)
    × IsTail tail
    × (parse_usize second ≡ some index)
    × (run chain (debug_printer chain) readers (InspectSubCmd.block first)
        ≡ ok (
            before
            ++ Line.item index
              ∷ ((Line.extrinsic 8 ∷ Line.extrinsic_bytes (8 ∷ []) ∷ []) ++ after)))
unfolding run get_extrinsic debug_extrinsic
run-debug_printer_example =
    run-debug_printer chain readers text (Line.extrinsic 8 ∷ Line.extrinsic_bytes (8 ∷ []) ∷ [])
      (0, refl) refl

without_index :
    parse_extrinsic_address readers (49 ∷ 50 ∷ 51 ∷ 52 ∷ []) ≡ err ParseError.index_missing
unfolding parse_extrinsic_address
without_index = refl

-- "0 0"
by_space :
    parse_extrinsic_address readers (48 ∷ 32 ∷ 48 ∷ [])
    ≡ ok (ExtrinsicAddress.block (BlockAddress.number 0) 0)
unfolding parse_extrinsic_address
by_space = refl

-- "5:+7.x": a plus sign is read, and what stands behind one more separator is not.
with_rest :
    parse_extrinsic_address readers (53 ∷ 58 ∷ 43 ∷ 55 ∷ 46 ∷ 120 ∷ [])
    ≡ ok (ExtrinsicAddress.block (BlockAddress.number 5) 7)
unfolding parse_extrinsic_address
with_rest = refl

-- "12:18446744073709551616"
too_great :
    parse_usize (
      49 ∷ 56 ∷ 52 ∷ 52 ∷ 54 ∷ 55 ∷ 52 ∷ 52 ∷ 48 ∷ 55 ∷ 51 ∷ 55 ∷ 48 ∷ 57 ∷ 53 ∷ 53 ∷ 49 ∷ 54 ∷ 49
      ∷ 54 ∷ [])
    ≡ none
unfolding parse_usize
too_great = refl
