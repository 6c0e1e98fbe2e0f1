-- ===== src/Sfu/Publisher/Answers.antt =====
-- The candidates of a publisher, over its answers.
use rsfu.Prelude.{Bool, true, false, List, [], ◌∷◌, ◌++◌, map, String, ◌≡◌, refl}
use rsfu.Sfu.Connection.{Call, returned}
use rsfu.Sfu.Publisher.{Publisher, add_ice_candidata, publisher_answer, give_all}

module _ (fails : Call → Bool) where
  give_all-map :
      (cs : List String) (u : Publisher)
      → give_all fails cs u ≡ (u, map Call.add_ice_candidate cs, returned tt)
  give_all-map [] u = refl
  give_all-map (c ∷ cs) u = rw (give_all-map cs u) refl

  module _ (works : (c : Call) → fails c ≡ false) where
    answer_lem :
        (u : Publisher) (offer sdp : String)
        → publisher_answer fails offer sdp u ≡ (
          record u { remote_description = true; stable = true },
          Call.set_remote_description offer ∷ map Call.add_ice_candidate u.candidates
              ++ Call.create_answer ∷ Call.set_local_description sdp ∷ [],
          returned sdp,
        )
    unfolding publisher_answer
    answer_lem u offer sdp = simp (
      works (Call.set_remote_description offer),
      give_all-map u.candidates (record u { remote_description = true; stable = false }),
      works Call.create_answer,
      works (Call.set_local_description sdp),
    )

    -- A candidate that comes when there is a remote description, while the crate accepts all calls: it
    -- goes to the connection at once, and again with the answer to the next offer, and it stays among the
    -- candidates, so that it goes with every answer after that one too.
    pub publisher_answer-add_ice_candidata :
        (u : Publisher) (candidate offer sdp : String)
        → let described : Publisher = record u { remote_description = true } in
          let added = add_ice_candidata fails candidate described in
          let answered = publisher_answer fails offer sdp added.0 in
          (added.1 ≡ Call.add_ice_candidate candidate ∷ [])
          × (answered.1
              ≡ Call.set_remote_description offer
                  ∷ map Call.add_ice_candidate (u.candidates ++ candidate ∷ [])
                ++ Call.create_answer ∷ Call.set_local_description sdp ∷ [])
          × (answered.0.candidates ≡ u.candidates ++ candidate ∷ [])
    unfolding add_ice_candidata
    publisher_answer-add_ice_candidata u candidate offer sdp =
        let u' : Publisher = record u {
          candidates = u.candidates ++ candidate ∷ [];
          remote_description = true;
        } in
        rw (works (Call.add_ice_candidate candidate), answer_lem u' offer sdp) (refl, refl, refl)
