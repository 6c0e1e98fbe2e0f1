-- ===== src/Twcc/Symbols.antt =====
-- The chunks of a report: what is written is what a reader gets.
use rsfu.Prelude.{
  ℕ, suc, ◌+◌, ◌-◌, ◌*◌, ◌/◌, ◌%◌, ◌^◌, ◌≤◌, ◌<◌, ◌≡◌, refl, sym, ap, ap₂, ◌∙◌, List, [], ◌∷◌, ◌++◌,
  map, arith, ltb, bit_and, bit_or, false,
}
use rsfu.Prelude.Bytes.{be16}
use rsfu.Prelude.Bits.{bit_or-field, bit_or-two_pow, bit_or-clear, two_pow_mono}
use native.Mathlib.Nat.{pow-suc, mul-lt-mul_of_pos_right, add-mul, mul_assoc}
use rsfu.Prelude.Masks.{bit_and-low_ones}
use rsfu.Twcc.{
  Responder, SymbolTypeTcc, packet_not_received, packet_received_small_delta,
  packet_received_large_delta, packet_received_without_delta, two_bit, symbol_as_u16,
  set_n_bits_of_u16, create_status_symbol_chunk, write_status_symbol_chunk,
}
use rsfu.Twcc.Build.{create_all, write_chunk}

-- How a reader takes a chunk that lists seven symbols, as the draft has it.
abbrev pub symbols_of : ℕ → List ℕ
symbols_of w =
    w / 2 ^ 12 % 4
    ∷ w / 2 ^ 10 % 4
    ∷ w / 2 ^ 8 % 4
    ∷ w / 2 ^ 6 % 4
    ∷ w / 2 ^ 4 % 4
    ∷ w / 2 ^ 2 % 4
    ∷ w % 4
    ∷ []

symbol_bound : (s : SymbolTypeTcc) → symbol_as_u16 s < 4
symbol_bound packet_not_received = omega arith
symbol_bound packet_received_small_delta = omega arith
symbol_bound packet_received_large_delta = omega arith
symbol_bound packet_received_without_delta = omega arith

-- A symbol goes behind those that are there.
set_symbol :
    (q start k v : ℕ)
    → v < 4
    → start + k ≡ 14
    → k ≤ 12
    → set_n_bits_of_u16 (q * 2 ^ suc (suc k)) 2 start v ≡ (q * 4 + v) * 2 ^ k
unfolding set_n_bits_of_u16
set_symbol q start k v h e l =
    let p = 2 ^ k in
    let four : 2 ^ suc (suc k) ≡ 4 * p = omega (arith, pow-suc 2 k, pow-suc 2 (suc k)) in
    let small : v * p < 4 * p =
      mul-lt-mul_of_pos_right h (omega (arith, two_pow_mono 0 k (omega arith))) in
    let fits : v * p < 2 ^ 16 = omega (arith, small, two_pow_mono k 12 l) in
    let inside : ltb 16 ((start + 2) % 2 ^ 16) ≡ false = ground arith in
    let shift : 16 - 2 - start ≡ k = omega arith in
    let low : bit_and v 3 ≡ v =
      ap (λ n. bit_and n 3) {x = v} {y = 0 * 2 ^ 2 + v} (omega arith) ∙ bit_and-low_ones 2 0 v h in
    let value : bit_and v 3 * 2 ^ (16 - 2 - start) % 2 ^ 16 ≡ v * p =
      ap₂ (λ a b. a * 2 ^ b % 2 ^ 16) low shift ∙ omega (arith, fits) in
    let spread : q * 2 ^ suc (suc k) ≡ q * 4 * p = ap (λ n. q * n) four ∙ sym (mul_assoc q 4 p) in
    let joined : (q * 4 + v) * p ≡ q * 4 * p + v * p = add-mul (q * 4) v p in
    rw (inside, value)
      (bit_or-field (suc (suc k)) q (v * p) (omega (arith, small, four))
        ∙ omega (arith, spread, joined))

-- The two bits that a chunk begins with.
mark :
    (q : ℕ)
    → q < 2 ^ 14
    → set_n_bits_of_u16 (set_n_bits_of_u16 (q * 2 ^ 0) 1 0 1) 1 1 1 ≡ 3 * 2 ^ 14 + q
unfolding set_n_bits_of_u16
mark q h =
    ap (λ n. bit_or (bit_or n (2 ^ 15)) (2 ^ 14)) {x = q * 1} {y = q} (omega arith)
    ∙ ap (λ n. bit_or n (2 ^ 14)) {x = bit_or q (2 ^ 15)} {y = 1 * 2 ^ 15 + q}
        (bit_or-two_pow 15 q (omega arith) ∙ omega arith)
    ∙ bit_or-clear 14 1 q h
    ∙ omega arith

cons_eq : {x y : ℕ} {xs ys : List ℕ} → x ≡ y → xs ≡ ys → x ∷ xs ≡ y ∷ ys
cons_eq e e' = ap₂ (λ x xs. x ∷ xs) e e'

symbols_of-digits :
    (a b c d e f g : ℕ)
    → a < 4
    → b < 4
    → c < 4
    → d < 4
    → e < 4
    → f < 4
    → g < 4
    → symbols_of
        (3 * 2 ^ 14 + (((((((0 * 4 + a) * 4 + b) * 4 + c) * 4 + d) * 4 + e) * 4 + f) * 4 + g))
      ≡ a ∷ b ∷ c ∷ d ∷ e ∷ f ∷ g ∷ []
symbols_of-digits a b c d e f g ha hb hc hd he hf hg = cons_eq (omega arith) (
    cons_eq (omega arith) (
      cons_eq (omega arith) (
        cons_eq (omega arith)
          (cons_eq (omega arith) (cons_eq (omega arith) (cons_eq (omega arith) refl))))))

-- A chunk of seven symbols, from an empty one on, is written behind the payload, and a reader gets the
-- seven symbols in their order from it; its first bit says that it lists symbols, its second that each
-- has two bits; and the next chunk begins empty.
pub write_chunk-symbols_of :
    (r : Responder) (a b c d e f g : SymbolTypeTcc)
    → r.chunk ≡ 0
    → let r' = write_chunk r two_bit (a ∷ b ∷ c ∷ d ∷ e ∷ f ∷ g ∷ []) in
      (w : ℕ) × (r'.payload ≡ r.payload ++ be16 w)
      × (w < 2 ^ 16)
      × (w / 2 ^ 14 ≡ 3)
      × (symbols_of w ≡ map symbol_as_u16 (a ∷ b ∷ c ∷ d ∷ e ∷ f ∷ g ∷ []))
      × (r'.chunk ≡ 0)
unfolding create_all create_status_symbol_chunk write_status_symbol_chunk
write_chunk-symbols_of r a b c d e f g empty =
    let v = symbol_as_u16 in
    let q1 = 0 * 4 + v a in
    let q2 = q1 * 4 + v b in
    let q3 = q2 * 4 + v c in
    let q4 = q3 * 4 + v d in
    let q5 = q4 * 4 + v e in
    let q6 = q5 * 4 + v f in
    let q7 = q6 * 4 + v g in
    let s1 =
      ap (λ x. set_n_bits_of_u16 x 2 2 (v a)) empty
      ∙ set_symbol 0 2 12 (v a) (symbol_bound a) refl (omega arith) in
    let s2 =
      ap (λ x. set_n_bits_of_u16 x 2 4 (v b)) s1
      ∙ set_symbol q1 4 10 (v b) (symbol_bound b) refl (omega arith) in
    let s3 =
      ap (λ x. set_n_bits_of_u16 x 2 6 (v c)) s2
      ∙ set_symbol q2 6 8 (v c) (symbol_bound c) refl (omega arith) in
    let s4 =
      ap (λ x. set_n_bits_of_u16 x 2 8 (v d)) s3
      ∙ set_symbol q3 8 6 (v d) (symbol_bound d) refl (omega arith) in
    let s5 =
      ap (λ x. set_n_bits_of_u16 x 2 10 (v e)) s4
      ∙ set_symbol q4 10 4 (v e) (symbol_bound e) refl (omega arith) in
    let s6 =
      ap (λ x. set_n_bits_of_u16 x 2 12 (v f)) s5
      ∙ set_symbol q5 12 2 (v f) (symbol_bound f) refl (omega arith) in
    let s7 =
      ap (λ x. set_n_bits_of_u16 x 2 14 (v g)) s6
      ∙ set_symbol q6 14 0 (v g) (symbol_bound g) refl (omega arith) in
    let small : q7 < 2 ^ 14 = omega (
      arith,
      symbol_bound a,
      symbol_bound b,
      symbol_bound c,
      symbol_bound d,
      symbol_bound e,
      symbol_bound f,
      symbol_bound g,
    ) in
    let ends = ap (λ x. set_n_bits_of_u16 (set_n_bits_of_u16 x 1 0 1) 1 1 1) s7 ∙ mark q7 small in
    (
      3 * 2 ^ 14 + q7,
      ap (λ w. r.payload ++ be16 w) ends,
      omega (arith, small),
      omega (arith, small),
      symbols_of-digits (v a) (v b) (v c) (v d) (v e) (v f) (v g) (symbol_bound a) (symbol_bound b)
          (symbol_bound c) (symbol_bound d) (symbol_bound e) (symbol_bound f) (symbol_bound g),
      refl,
    )
