-- ===== src/Buffer/Vp8/Rewrite.antt =====
-- `modify_vp8_temporal_payload` at the indices that `unmarshal` found.
use rsfu.Prelude.{
  ℕ, ◌+◌, ◌/◌, ◌%◌, ◌<◌, ◌≡◌, ◌≢◌, inl, inr, refl, sym, ◌∙◌, ap, subst, ◌and_then◌, err_nil_packet,
  Bool, true, false, Option, some, List, arith, if◌then◌else◌, length, set, get_elem?, length-set,
  bit_or, get_elem?-set_self, get_elem?-set_ne,
}
use rsfu.Buffer.Vp8.{
  Vp8, default, Run, done, failed, store, store_long, modify_temporal_payload, unmarshal,
}
use rsfu.Buffer.Vp8.Safety.{InPayload, Ends, unmarshal-Ends}

store-some : (p : List ℕ) (i b : ℕ) → i < length p → store p i b ≡ some (set p i b)
unfolding store
store-some p i b h = ground arith

store_long-some :
    (p : List ℕ) (i id b : ℕ)
    → get_elem? p i ≡ some b
    → i + 1 < length p
    → store_long p i id ≡ some (set (set p i (bit_or b 0x80)) (i + 1) (id % 256))
unfolding store_long store
store_long-some p i id b e h = ground (arith, e, length-set p i (bit_or b 0x80))

-- The payload that results from indices in range.
abbrev pub rewritten : List ℕ → ℕ → ℕ → ℕ → ℕ → Bool → List ℕ
rewritten p i j id tl m =
    set
      (if m
        then set (set (set p i (id / 256 % 256)) i (bit_or (id / 256 % 256) 0x80)) (i + 1)
            (id % 256)
        else set p i (id / 256 % 256))
      j tl

modify-rewritten :
    (p : List ℕ) (i j id tl : ℕ) (m : Bool)
    → i < length p
    → (m ≡ true → i + 1 < length p)
    → j < length p
    → modify_temporal_payload p i j id tl m ≡ some (rewritten p i j id tl m)
unfolding modify_temporal_payload
modify-rewritten p i j id tl m h hm k =
    ap (λ o. o and_then λ q. mark m q and_then λ q'. store q' j tl) (store-some p i hi h)
    ∙ rest m hm
  where
    hi : ℕ
    hi = id / 256 % 256

    mark : Bool → List ℕ → Option (List ℕ)
    mark b q = if b then store_long q i id else some q

    p1 : List ℕ
    p1 = set p i hi

    l1 : length p1 ≡ length p
    l1 = length-set p i hi

    rest :
        (b : Bool)
        → (b ≡ true → i + 1 < length p)
        → (mark b p1 and_then λ q. store q j tl) ≡ some (rewritten p i j id tl b)
    rest false _ = store-some p1 j tl (omega (arith, l1))
    rest true b =
        ap (λ o. o and_then λ q. store q j tl)
          (store_long-some p1 i id hi (get_elem?-set_self p i hi h) (omega (arith, l1, b refl)))
        ∙ store-some _ j tl (
            omega (
              arith,
              l1,
              length-set p1 i (bit_or hi 0x80),
              length-set (set p1 i (bit_or hi 0x80)) (i + 1) (id % 256),
            ))

length-rewritten :
    (p : List ℕ) (i j id tl : ℕ) (m : Bool) → length (rewritten p i j id tl m) ≡ length p
length-rewritten p i j id tl false = length-set _ j tl ∙ length-set p i (id / 256 % 256)
length-rewritten p i j id tl true =
    length-set _ j tl
    ∙ length-set _ (i + 1) (id % 256)
    ∙ length-set _ i _
    ∙ length-set p i (id / 256 % 256)

-- Where `unmarshal` succeeded on a payload, overwriting the fields at the indices that it found
-- never goes out of range, and changes no other byte than those at these indices (two bytes for a
-- long picture number).
pub modify_unmarshal :
    (payload : List ℕ) (v : Vp8) (id tl : ℕ)
    → unmarshal payload default ≡ done tt v
    → (out : List ℕ) × (modify_temporal_payload payload v.picture_id_idx v.tlz_idx id tl v.mbit
        ≡ some out)
      × (length out ≡ length payload)
      × ((k : ℕ)
          → k ≢ v.picture_id_idx
          → k ≢ v.tlz_idx
          → (v.mbit ≡ true → k ≢ v.picture_id_idx + 1)
          → get_elem? out k ≡ get_elem? payload k)
modify_unmarshal payload v id tl e = elim (unmarshal-Ends payload) [
  | inl (_, nil) ↦ absurd (differ (sym e ∙ nil))
  | inr ends ↦ body (subst (Ends (λ _. Unit {0}) payload) e ends).1
]
  where
    differ : ◌≡◌ {A = Run (Unit {0})} (done tt v) (failed err_nil_packet default) → ⊥
    differ q = cc

    same :
        (m : Bool) (k : ℕ)
        → k ≢ v.picture_id_idx
        → k ≢ v.tlz_idx
        → (m ≡ true → k ≢ v.picture_id_idx + 1)
        → get_elem? (rewritten payload v.picture_id_idx v.tlz_idx id tl m) k ≡ get_elem? payload k
    same false k a b c =
        get_elem?-set_ne _ tl (λ q. b (sym q)) ∙ get_elem?-set_ne payload _ (λ q. a (sym q))
    same true k a b c =
        get_elem?-set_ne _ tl (λ q. b (sym q))
        ∙ get_elem?-set_ne _ _ (λ q. c refl (sym q))
        ∙ get_elem?-set_ne _ _ (λ q. a (sym q))
        ∙ get_elem?-set_ne payload _ (λ q. a (sym q))

    body :
        InPayload payload v
        → (out : List ℕ) × (modify_temporal_payload payload v.picture_id_idx v.tlz_idx id tl v.mbit
            ≡ some out)
          × (length out ≡ length payload)
          × ((k : ℕ)
              → k ≢ v.picture_id_idx
              → k ≢ v.tlz_idx
              → (v.mbit ≡ true → k ≢ v.picture_id_idx + 1)
              → get_elem? out k ≡ get_elem? payload k)
    body p = (
      rewritten payload v.picture_id_idx v.tlz_idx id tl v.mbit,
      modify-rewritten payload v.picture_id_idx v.tlz_idx id tl v.mbit p.picture p.long_picture
          p.tl0,
      length-rewritten payload v.picture_id_idx v.tlz_idx id tl v.mbit,
      same v.mbit,
    )
