-- ===== src/Inspect/Address.antt =====
-- Which texts are read as the address of an extrinsic of a block.
use akropolis_os_chain_node.Common.{
  ℕ, ◌≡◌, ◌≢◌, ◌↔◌, Bool, true, false, ◌||◌, List, [], ◌∷◌, ◌++◌, some, ◌⊎◌, inl, inr, arith, refl,
  sym, ap, ◌∙◌, subst, Bool-cases,
}
use mathlib.Core.List.{append-nil}
use akropolis_os_chain_node.Common.Result.{ok}
use akropolis_os_chain_node.Inspect.{
  BlockAddress, ExtrinsicAddress, Readers, is_separator, split, parse_usize, parse_block_address,
  parse_items, parse_extrinsic_address,
}

abbrev pub has_separator : List ℕ → Bool
has_separator [] = false
has_separator (c ∷ text) = is_separator c || has_separator text

-- Nothing, or something after a separator.
abbrev pub IsTail : List ℕ → Type 0
IsTail [] = Unit
IsTail (c ∷ _) = is_separator c ≡ true

split_word : (w : List ℕ) → has_separator w ≡ false → split w ≡ (w, [])
unfolding split
split_word [] h = refl
split_word (c ∷ w) h = ground (arith, split_word w)

split-append :
    (w : List ℕ) (c : ℕ) (text : List ℕ)
    → has_separator w ≡ false
    → is_separator c ≡ true
    → split (w ++ c ∷ text) ≡ (w, (split text).0 ∷ (split text).1)
unfolding split
split-append [] c text h k = ground (arith, k)
split-append (d ∷ w) c text h k = ground (arith, split-append w c text)

-- A text is one word, or a word before a separator.
pub word_cases :
    (text : List ℕ)
    → (has_separator text ≡ false)
      ⊎ ((w : List ℕ) × (c : ℕ) × (rest : List ℕ) × (text ≡ w ++ c ∷ rest)
          × (has_separator w ≡ false)
          × (is_separator c ≡ true))
word_cases [] = inl refl
word_cases (c ∷ text) = elim (Bool-cases (is_separator c)) [
  | inl yes_it_is ↦ inr ([], c, text, refl, refl, yes_it_is)
  | inr ordinary ↦ elim (word_cases text) [
    | inl none_left ↦ inl (ground arith)
    | inr (w, d, rest, e, h, k) ↦ inr (c ∷ w, d, rest, ap (λ t. c ∷ t) e, ground arith, k)
  ]
]

split_second : (w tail : List ℕ) → has_separator w ≡ false → IsTail tail → (split (w ++ tail)).0 ≡ w
split_second w [] h k = ap (λ t. (split t).0) (append-nil w) ∙ ap (λ p. p.0) (split_word w h)
split_second w (c ∷ tail) h k = ap (λ p. p.0) (split-append w c tail h k)

second_cases :
    (text : List ℕ)
    → (second : List ℕ) × (tail : List ℕ) × (text ≡ second ++ tail)
      × (has_separator second ≡ false)
      × IsTail tail
      × ((split text).0 ≡ second)
second_cases text = elim (word_cases text) [
  | inl h ↦ (text, [], sym (append-nil text), h, tt, ap (λ p. p.0) (split_word text h))
  | inr (w, c, rest, e, h, k) ↦
      (w, c ∷ rest, e, h, k, ap (λ t. (split t).0) e ∙ split_second w (c ∷ rest) h k)
]

module _ {Hash Number H : Type 0} (readers : Readers Hash Number H) where
  items_missing :
      (first : List ℕ) (address : ExtrinsicAddress Hash Number)
      → parse_items readers (first, []) ≢ ok address
  unfolding parse_items
  items_missing first address e = ground (arith, e)

  items_ok :
      (first second : List ℕ) (others : List (List ℕ)) (address : BlockAddress Hash Number)
      (index : ℕ)
      → parse_items readers (first, second ∷ others) ≡ ok (ExtrinsicAddress.block address index)
      → (parse_block_address readers first ≡ ok address) × (parse_usize second ≡ some index)
  unfolding parse_items
  items_ok first second others address index e = ground (arith, e)

  -- The text has the address of a block, a separator and an index, and then nothing or more
  -- after another separator.
  abbrev pub IsAddressOf : List ℕ → BlockAddress Hash Number → ℕ → Type 0
  IsAddressOf text address index =
      (first : List ℕ) × (c : ℕ) × (second : List ℕ) × (tail : List ℕ) × (text
        ≡ first ++ c ∷ (second ++ tail))
      × (has_separator first ≡ false)
      × (is_separator c ≡ true)
      × (has_separator second ≡ false)
      × IsTail tail
      × (parse_block_address readers first ≡ ok address)
      × (parse_usize second ≡ some index)

  abbrev pub NotHex : List ℕ → Type 0
  NotHex text = (e : H) × (readers.from_hex text ≡ inl e)

  parse_items-IsAddressOf :
      (text : List ℕ) (address : BlockAddress Hash Number) (index : ℕ)
      → parse_items readers (split text) ≡ ok (ExtrinsicAddress.block address index)
      → IsAddressOf text address index
  parse_items-IsAddressOf text address index e = elim (word_cases text) [
    | inl h ↦ absurd (items_missing text _ (ap (parse_items readers) (sym (split_word text h)) ∙ e))
    | inr (first, c, rest, e', h, k) ↦
        let items = ap split e' ∙ split-append first c rest h k in
        let (p, q) =
          items_ok first (split rest).0 (split rest).1 address index
            (ap (parse_items readers) (sym items) ∙ e) in
        let (word, tail, e2, h2, k2, first_of_rest) = second_cases rest in
        (
          first,
          c,
          word,
          tail,
          e' ∙ ap (λ t. first ++ c ∷ t) e2,
          h,
          k,
          h2,
          k2,
          p,
          subst (λ x. parse_usize x ≡ some index) first_of_rest q,
        )
  ]

  items_of :
      (first second : List ℕ) (others : List (List ℕ)) (address : BlockAddress Hash Number)
      (index : ℕ)
      → parse_block_address readers first ≡ ok address
      → parse_usize second ≡ some index
      → parse_items readers (first, second ∷ others) ≡ ok (ExtrinsicAddress.block address index)
  unfolding parse_items
  items_of first second others address index p q = ground (arith, p, q)

  IsAddressOf-parse_items :
      (text : List ℕ) (address : BlockAddress Hash Number) (index : ℕ)
      → IsAddressOf text address index
      → parse_items readers (split text) ≡ ok (ExtrinsicAddress.block address index)
  IsAddressOf-parse_items text address index (first, c, second, tail, e, hf, hc, hs, ht, p, q) =
      let rest = split (second ++ tail) in
      let same = split_second second tail hs ht in
      ap (λ t. parse_items readers (split t)) e
      ∙ ap (parse_items readers) (split-append first c (second ++ tail) hf hc)
      ∙ items_of first rest.0 rest.1 address index p (ap parse_usize same ∙ q)

hex_cases :
    {H : Type 0} (o : H ⊎ List ℕ)
    → ((e : H) × (o ≡ inl e)) ⊎ ((encoded : List ℕ) × (o ≡ inr encoded))
hex_cases (inl e) = inl (e, refl)
hex_cases (inr encoded) = inr (encoded, refl)

-- A text is read as the address of an extrinsic of a block exactly if it is not hexadecimal and has
-- the address of the block, a separator and the index, with nothing behind it or anything after one
-- more separator.
pub parse_extrinsic_address_iff :
    {Hash Number H : Type 0} (readers : Readers Hash Number H) (text : List ℕ)
    (address : BlockAddress Hash Number) (index : ℕ)
    → (parse_extrinsic_address readers text ≡ ok (ExtrinsicAddress.block address index))
      ↔ (NotHex readers text × IsAddressOf readers text address index)
unfolding parse_extrinsic_address
parse_extrinsic_address_iff readers text address index = (
  λ h. elim (hex_cases (readers.from_hex text)) [
    | inl (e, no_hex) ↦ (
      (e, no_hex),
      parse_items-IsAddressOf readers text address index (ground (arith, h, no_hex)),
    )
    | inr (encoded, hex) ↦ absurd (ground (arith, h, hex))
  ],
  λ ((e, no_hex), h).
      rw (parse_extrinsic_address, no_hex) (IsAddressOf-parse_items readers text address index h),
)
