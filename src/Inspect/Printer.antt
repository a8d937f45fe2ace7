-- ===== src/Inspect/Printer.antt =====
-- The inspector of blocks and extrinsics (inspect/src/lib.rs), the printer it has by default, and the
-- command that runs it (inspect/src/command.rs).
use akropolis_os_chain_node.Common.{
  ℕ, zero, suc, ◌+◌, List, [], ◌∷◌, ◌++◌, Option, none, some, length,
}
use akropolis_os_chain_node.Common.Result.{Result, ok, err, ◌>>=◌, map_err}
use akropolis_os_chain_node.Inspect.{
  BlockAddress, ExtrinsicAddress, ParseError, Readers, parse_block_address, parse_extrinsic_address,
}

-- `BlockId`
pub data BlockId (Hash Number : Type 0) : Type 0 where
  hash : Hash → BlockId Hash Number
  number : Number → BlockId Hash Number

-- What was not found.
pub data Missing (Hash Number Block : Type 0) : Type 0 where
  block : BlockId Hash Number → Missing Hash Number Block
  extrinsic : ℕ → Block → Missing Hash Number Block

-- `Error`; a fault is an error of the codec or of the database.
pub data Error (Hash Number Block Fault : Type 0) : Type 0 where
  codec : Fault → Error Hash Number Block Fault
  blockchain : Fault → Error Hash Number Block Fault
  not_found : Missing Hash Number Block → Error Hash Number Block Fault

-- The database of the chain and the codec, and the parts of blocks.
pub record Chain (Hash Number Header Extrinsic Block Fault : Type 0) : Type 0 where
  pub block_body : BlockId Hash Number → Result Fault (Option (List Extrinsic))
  pub header : BlockId Hash Number → Result Fault (Option Header)
  pub new : Header → List Extrinsic → Block
  pub header_of : Block → Header
  pub extrinsics : Block → List Extrinsic
  pub decode_block : List ℕ → Result Fault Block
  pub encode_block : Block → List ℕ
  pub decode_extrinsic : List ℕ → Result Fault Extrinsic
  pub encode_extrinsic : Extrinsic → List ℕ

-- `PrettyPrinter`. Writing to a text does not fail.
pub record PrettyPrinter (Extrinsic Block Output : Type 0) : Type 0 where
  pub fmt_block : Block → Output
  pub fmt_extrinsic : Extrinsic → Output

-- One line of DebugPrinter, by the format and what is put into it.
pub data Line (Header Extrinsic : Type 0) : Type 0 where
  header_title : Line Header Extrinsic
  header : Header → Line Header Extrinsic
  block_bytes : List ℕ → Line Header Extrinsic
  extrinsics_title : ℕ → Line Header Extrinsic
  item : ℕ → Line Header Extrinsic
  extrinsic : Extrinsic → Line Header Extrinsic
  extrinsic_bytes : List ℕ → Line Header Extrinsic

-- `list.get(i).cloned()`
abbrev pub get {ℓ} : {A : Type ℓ} → ℕ → List A → Option A
get i [] = none
get zero (x ∷ xs) = some x
get (suc i) (x ∷ xs) = get i xs

-- `option.ok_or_else(|| e)`
abbrev pub ok_or : {E A : Type 0} → E → Option A → Result E A
ok_or e none = err e
ok_or e (some a) = ok a

-- `InspectSubCmd`
pub data InspectSubCmd : Type 0 where
  block : List ℕ → InspectSubCmd
  extrinsic : List ℕ → InspectSubCmd

-- What the command fails with.
pub data CmdError (H E : Type 0) : Type 0 where
  input : ParseError H → CmdError H E
  inspect : E → CmdError H E

module _ {Hash Number Header Extrinsic Block Fault : Type 0}
    (chain : Chain Hash Number Header Extrinsic Block Fault) where
  -- What `get_block` does for a number and for a hash.
  unfoldable pub find_block : BlockId Hash Number → Result (Error Hash Number Block Fault) Block
  find_block id = do
    let not_found = Error.not_found (Missing.block id)
    found_body ← map_err Error.blockchain (chain.block_body id)
    body ← ok_or not_found found_body
    found_header ← map_err Error.blockchain (chain.header id)
    top ← ok_or not_found found_header
    ok (chain.new top body)

  unfoldable pub get_block : BlockAddress Hash Number → Result (Error Hash Number Block Fault) Block
  unfolding find_block
  get_block (BlockAddress.bytes encoded) = map_err Error.codec (chain.decode_block encoded)
  get_block (BlockAddress.number n) = find_block (BlockId.number n)
  get_block (BlockAddress.hash h) = find_block (BlockId.hash h)

  unfoldable pub get_extrinsic :
      ExtrinsicAddress Hash Number → Result (Error Hash Number Block Fault) Extrinsic
  unfolding get_block
  get_extrinsic (ExtrinsicAddress.block address index) = do
    found ← get_block address
    ok_or (Error.not_found (Missing.extrinsic index found)) (get index (chain.extrinsics found))
  get_extrinsic (ExtrinsicAddress.bytes encoded) =
      map_err Error.codec (chain.decode_extrinsic encoded)

  module _ {Output : Type 0} (printer : PrettyPrinter Extrinsic Block Output) where
    -- `Inspector::block` and `Inspector::extrinsic`
    unfoldable pub inspect_block :
        BlockAddress Hash Number → Result (Error Hash Number Block Fault) Output
    inspect_block address = do found ← get_block address; ok (printer.fmt_block found)

    unfoldable pub inspect_extrinsic :
        ExtrinsicAddress Hash Number → Result (Error Hash Number Block Fault) Output
    inspect_extrinsic address = do found ← get_extrinsic address; ok (printer.fmt_extrinsic found)

    -- `InspectCmd::run`, and what it prints.
    unfoldable pub run :
        {H : Type 0}
        → Readers Hash Number H
        → InspectSubCmd
        → Result (CmdError H (Error Hash Number Block Fault)) Output
    unfolding inspect_block inspect_extrinsic parse_block_address parse_extrinsic_address
    run readers (InspectSubCmd.block text) = do
      address ← map_err CmdError.input (parse_block_address readers text)
      map_err CmdError.inspect (inspect_block address)
    run readers (InspectSubCmd.extrinsic text) = do
      address ← map_err CmdError.input (parse_extrinsic_address readers text)
      map_err CmdError.inspect (inspect_extrinsic address)

  -- `fmt_extrinsic` and `fmt_block` of DebugPrinter
  unfoldable pub debug_extrinsic : Extrinsic → List (Line Header Extrinsic)
  debug_extrinsic x = Line.extrinsic x ∷ Line.extrinsic_bytes (chain.encode_extrinsic x) ∷ []

  unfoldable pub debug_extrinsics : ℕ → List Extrinsic → List (Line Header Extrinsic)
  unfolding debug_extrinsic
  debug_extrinsics index [] = []
  debug_extrinsics index (x ∷ xs) =
      Line.item index ∷ (debug_extrinsic x ++ debug_extrinsics (index + 1) xs)

  unfoldable pub debug_block : Block → List (Line Header Extrinsic)
  unfolding debug_extrinsics
  debug_block b =
      Line.header_title
      ∷ Line.header (chain.header_of b)
      ∷ Line.block_bytes (chain.encode_block b)
      ∷ Line.extrinsics_title (length (chain.extrinsics b))
      ∷ debug_extrinsics 0 (chain.extrinsics b)

  abbrev pub debug_printer : PrettyPrinter Extrinsic Block (List (Line Header Extrinsic))
  debug_printer = record { fmt_block = debug_block; fmt_extrinsic = debug_extrinsic }
