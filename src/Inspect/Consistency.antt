-- ===== src/Inspect/Consistency.antt =====
-- The two sub-commands print the same of an extrinsic on the chain.
use akropolis_os_chain_node.Common.{
  ℕ, zero, suc, ◌+◌, ◌≡◌, List, [], ◌∷◌, ◌++◌, Option, none, some, length, ap, refl, ◌∙◌, arith,
  sym, inl, ◌≢◌, true, false,
}
use akropolis_os_chain_node.Common.Result.{ok, map_err, bind_ok, map_err_ok, ok_eq}
use akropolis_os_chain_node.Inspect.{
  BlockAddress, ExtrinsicAddress, Readers, parse_block_address, parse_items, parse_usize,
  is_separator, parse_extrinsic_address,
}
use akropolis_os_chain_node.Inspect.Address.{
  IsAddressOf, IsTail, NotHex, has_separator, parse_extrinsic_address_iff,
}
use akropolis_os_chain_node.Inspect.Printer.{
  Chain, PrettyPrinter, Line, InspectSubCmd, CmdError, get, ok_or, get_block, get_extrinsic,
  inspect_block, inspect_extrinsic, run, debug_extrinsic, debug_extrinsics, debug_block,
  debug_printer,
}

ok_or_ok : {E A : Type 0} (e : E) (o : Option A) (a : A) → ok_or e o ≡ ok a → o ≡ some a
ok_or_ok e none a h = absurd (ground (arith, h))
ok_or_ok e (some x) a h = ground (arith, h)

not_bytes :
    {Hash Number H : Type 0} (readers : Readers Hash Number H) (text encoded : List ℕ) (e : H)
    → readers.from_hex text ≡ inl e
    → parse_extrinsic_address readers text ≢ ok (ExtrinsicAddress.bytes encoded)
unfolding parse_extrinsic_address parse_items
not_bytes readers text encoded e no_hex h = ground (arith, h, no_hex)

-- The address of an extrinsic that is not hexadecimal.
parse_block :
    {Hash Number H : Type 0} (readers : Readers Hash Number H) (text : List ℕ)
    (address : ExtrinsicAddress Hash Number)
    → NotHex readers text
    → parse_extrinsic_address readers text ≡ ok address
    → (a : BlockAddress Hash Number) × (index : ℕ) × (address ≡ ExtrinsicAddress.block a index)
      × IsAddressOf readers text a index
parse_block readers text (ExtrinsicAddress.block a index) _ h =
    (a, index, refl, ((parse_extrinsic_address_iff readers text a index).0 h).1)
parse_block readers text (ExtrinsicAddress.bytes encoded) (e, no_hex) h =
    absurd (not_bytes readers text encoded e no_hex h)

module _ {Hash Number Header Extrinsic Block Fault : Type 0}
    (chain : Chain Hash Number Header Extrinsic Block Fault) where
  debug_extrinsics_get :
      (first index : ℕ) (xs : List Extrinsic) (x : Extrinsic)
      → get index xs ≡ some x
      → (before : List (Line Header Extrinsic)) × (after : List (Line Header Extrinsic))
        × (debug_extrinsics chain first xs
            ≡ before ++ Line.item (first + index) ∷ (debug_extrinsic chain x ++ after))
  unfolding debug_extrinsics
  debug_extrinsics_get first index [] x h = absurd (ground (arith, h))
  debug_extrinsics_get first zero (y ∷ xs) x h =
      ([], debug_extrinsics chain (first + 1) xs, ground (arith, h))
  debug_extrinsics_get first (suc index) (y ∷ xs) x h =
      let (before, after, e) = debug_extrinsics_get (first + 1) index xs x h in
      (
        Line.item first ∷ (debug_extrinsic chain y ++ before),
        after,
        ap (λ t. Line.item first ∷ (debug_extrinsic chain y ++ t)) e
            ∙ ap
                (λ n.
                  (Line.item first ∷ (debug_extrinsic chain y ++ before))
                  ++ Line.item n ∷ (debug_extrinsic chain x ++ after))
                (omega arith),
      )

  debug_block_get :
      (b : Block) (index : ℕ) (x : Extrinsic)
      → get index (chain.extrinsics b) ≡ some x
      → (before : List (Line Header Extrinsic)) × (after : List (Line Header Extrinsic))
        × (debug_block chain b ≡ before ++ Line.item index ∷ (debug_extrinsic chain x ++ after))
  unfolding debug_block
  debug_block_get b index x h =
      let (before, after, e) = debug_extrinsics_get 0 index (chain.extrinsics b) x h in
      let title : List (Line Header Extrinsic) =
        Line.header_title
        ∷ Line.header (chain.header_of b)
        ∷ Line.block_bytes (chain.encode_block b)
        ∷ Line.extrinsics_title (length (chain.extrinsics b))
        ∷ [] in
      (
        title ++ before,
        after,
        ap (λ t. title ++ t) e
            ∙ ap (λ n. title ++ (before ++ Line.item n ∷ (debug_extrinsic chain x ++ after)))
                (omega arith),
      )

  get_extrinsic_ok :
      (address : BlockAddress Hash Number) (index : ℕ) (x : Extrinsic)
      → get_extrinsic chain (ExtrinsicAddress.block address index) ≡ ok x
      → (b : Block) × (get_block chain address ≡ ok b) × (get index (chain.extrinsics b) ≡ some x)
  unfolding get_extrinsic
  get_extrinsic_ok address index x e =
      let (b, found, h) = bind_ok (get_block chain address) _ x e in
      (b, found, ok_or_ok _ (get index (chain.extrinsics b)) x h)

  run_block :
      {Output H : Type 0} (printer : PrettyPrinter Extrinsic Block Output)
      (readers : Readers Hash Number H) (text : List ℕ) (address : BlockAddress Hash Number)
      (b : Block)
      → parse_block_address readers text ≡ ok address
      → get_block chain address ≡ ok b
      → run chain printer readers (InspectSubCmd.block text) ≡ ok (printer.fmt_block b)
  unfolding run inspect_block
  run_block printer readers text address b p found = rw (p, found) refl

-- A text that is not hexadecimal, and of which the sub-command for extrinsics prints the lines, is the
-- address of a block, a separator and an index, before nothing or more after another separator. Of
-- that address the sub-command for blocks prints the same lines, below the line with that index.
pub run-debug_printer :
    {Hash Number Header Extrinsic Block Fault H : Type 0}
    (chain : Chain Hash Number Header Extrinsic Block Fault) (readers : Readers Hash Number H)
    (text : List ℕ) (lines : List (Line Header Extrinsic))
    → NotHex readers text
    → run chain (debug_printer chain) readers (InspectSubCmd.extrinsic text) ≡ ok lines
    → (first : List ℕ) × (c : ℕ) × (second : List ℕ) × (tail : List ℕ) × (index : ℕ)
      × (before : List (Line Header Extrinsic)) × (after : List (Line Header Extrinsic)) × (text
          ≡ first ++ c ∷ (second ++ tail))
      × (has_separator first ≡ false)
      × (is_separator c ≡ true)
      × (has_separator second ≡ false)
      × IsTail tail
      × (parse_usize second ≡ some index)
      × (run chain (debug_printer chain) readers (InspectSubCmd.block first)
          ≡ ok (before ++ Line.item index ∷ (lines ++ after)))
unfolding run inspect_block inspect_extrinsic
run-debug_printer chain readers text lines no_hex printed =
    let read = parse_extrinsic_address readers text in
    let (address, parsed, inspected) = bind_ok (map_err CmdError.input read) _ lines printed in
    let (a, index, e, words) =
      parse_block readers text address no_hex (map_err_ok CmdError.input read address parsed) in
    let (first, c, second, tail, start, one, separator, other, ends, p, number) = words in
    let shown =
      map_err_ok CmdError.inspect (inspect_extrinsic chain (debug_printer chain) address) lines
        inspected in
    let (x, got, same) = bind_ok (get_extrinsic chain address) _ lines shown in
    let (b, found, here) =
      get_extrinsic_ok chain a index x (ap (get_extrinsic chain) (sym e) ∙ got) in
    let (before, after, d) = debug_block_get chain b index x here in
    let printed_lines =
      ok_eq (ok (debug_extrinsic chain x)) (debug_extrinsic chain x) lines refl same in
    (
      first,
      c,
      second,
      tail,
      index,
      before,
      after,
      start,
      one,
      separator,
      other,
      ends,
      number,
      run_block chain (debug_printer chain) readers first a b p found
          ∙ ap (λ l. ok l) (d ∙ ap (λ l. before ++ Line.item index ∷ (l ++ after)) printed_lines),
    )
