-- ===== src/Sfu/Publisher/Tests.antt =====
-- The theorem at a publisher with a candidate.
use rsfu.Prelude.{true, false, [], ◌∷◌, ◌≡◌, refl}
use rsfu.Sfu.Connection.{Call}
use rsfu.Sfu.Publisher.{Publisher, new_publisher, add_ice_candidata, publisher_answer}
use rsfu.Sfu.Publisher.Answers.{publisher_answer-add_ice_candidata}

abbrev publisher : Publisher
publisher = record (new_publisher "p") { candidates = "a" ∷ []; remote_description = true }

abbrev added : Publisher
added = record publisher { candidates = "a" ∷ "b" ∷ [] }

publisher_answer-add_ice_candidata_example :
    ((add_ice_candidata (λ _. false) "b" publisher).1 ≡ Call.add_ice_candidate "b" ∷ [])
    × ((publisher_answer (λ _. false) "o" "d" added).1
        ≡ Call.set_remote_description "o"
          ∷ Call.add_ice_candidate "a"
          ∷ Call.add_ice_candidate "b"
          ∷ Call.create_answer
          ∷ Call.set_local_description "d"
          ∷ [])
    × ((publisher_answer (λ _. false) "o" "d" added).0.candidates ≡ "a" ∷ "b" ∷ [])
unfolding add_ice_candidata
publisher_answer-add_ice_candidata_example =
    publisher_answer-add_ice_candidata (λ _. false) (λ _. refl) publisher "b" "o" "d"
