-- ===== src/Sfu/Codecs/Search.antt =====
-- What the search finds.
use rsfu.Prelude.{
  ◌≡◌, ◌⊎◌, inl, inr, refl, ap, Bool, true, false, none, some, List, [], ◌∷◌, ◌++◌, String,
  Bool-cases,
}
use rsfu.Sfu.Codecs.{same_mime, same_codec, first_match, codec_parameters_fuzzy_search}

abbrev pub Fails : {A : Type 0} → (A → Bool) → List A → Type 0
Fails test [] = Unit {0}
Fails test (x ∷ xs) = (test x ≡ false) × Fails test xs

-- `x` passes the test, and nothing before it in the list does.
pub record IsFirst {A : Type 0} (test : A → Bool) (xs : List A) (x : A) : Type 0 where
  pub before : List A
  pub behind : List A
  pub split : xs ≡ before ++ x ∷ behind
  pub passes : test x ≡ true
  pub others : Fails test before

module _ {C : Type 0} (mime_type sdp_fmtp_line : C → String) where
  first_match-cases :
      (test : C → Bool) (xs : List C)
      → ((first_match mime_type sdp_fmtp_line test xs ≡ none) × Fails test xs)
        ⊎ ((x : C) × (first_match mime_type sdp_fmtp_line test xs ≡ some x) × IsFirst test xs x)
  unfolding first_match
  first_match-cases test [] = inl (refl, tt)
  first_match-cases test (x ∷ xs) = elim (Bool-cases (test x)) [
    | inl e ↦
        inr (x, rw e, record { before = []; behind = xs; split = refl; passes = e; others = tt })
    | inr e ↦ elim (first_match-cases test xs) [
      | inl (none_of, fails) ↦ inl (rw (e, none_of), (e, fails))
      | inr (y, found, first) ↦ inr (
        y,
        rw (e, found),
        record {
          before = x ∷ first.before;
          behind = first.behind;
          split = ap (λ zs. x ∷ zs) first.split;
          passes = first.passes;
          others = (e, first.others);
        },
      )
    ]
  ]

  -- The search returns the first codec that has the MIME type and the parameter line asked for; where
  -- there is none, the first that has the MIME type; and where there is none either, the error.
  pub codec_parameters_fuzzy_search_lem :
      (needle : C) (hay_stack : List C)
      → let found = codec_parameters_fuzzy_search mime_type sdp_fmtp_line needle hay_stack in
        let exact = same_codec mime_type sdp_fmtp_line needle in
        let close = same_mime mime_type sdp_fmtp_line needle in
        ((x : C) × (found ≡ some x) × IsFirst exact hay_stack x)
        ⊎ (Fails exact hay_stack
            × (((x : C) × (found ≡ some x) × IsFirst close hay_stack x)
                ⊎ ((found ≡ none) × Fails close hay_stack)))
  unfolding codec_parameters_fuzzy_search
  codec_parameters_fuzzy_search_lem needle hay_stack =
      elim (first_match-cases (same_codec mime_type sdp_fmtp_line needle) hay_stack) [
        | inr (x, found, first) ↦ inl (x, rw (found, codec_parameters_fuzzy_search), first)
        | inl (nothing, fails) ↦ inr (
          fails,
          elim (first_match-cases (same_mime mime_type sdp_fmtp_line needle) hay_stack) [
            | inr (x, found, first) ↦
                inl (x, rw (nothing, codec_parameters_fuzzy_search) found, first)
            | inl (nothing', fails') ↦
                inr (rw (nothing, codec_parameters_fuzzy_search) nothing', fails')
          ],
        )
      ]
