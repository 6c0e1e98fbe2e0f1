-- ===== src/Sfu/Subscriber/Candidates.antt =====
-- The candidates that a subscriber is sent, before and after the remote description.
use rsfu.Prelude.{Bool, true, false, List, [], ◌∷◌, ◌++◌, map, String, ◌≡◌, refl, map-append}
use mathlib.Core.List.{append_assoc, append-nil}
use rsfu.Sfu.Connection.{Call, Action, pure, returned, call_all, ◌>>◌}
use rsfu.Sfu.Subscriber.{Subscriber, add_ice_candidate, set_remote_description}

pub data Signal : Type 0 where
  candidate description : String → Signal

module _ (fails : Call → Bool) where
  unfoldable pub receive : Signal → Action Subscriber (Unit {0})
  receive (candidate c) = add_ice_candidate fails c
  receive (description d) = set_remote_description fails d

  unfoldable pub receive_all : List Signal → Action Subscriber (Unit {0})
  receive_all [] = pure tt
  receive_all (x ∷ xs) = receive x >> receive_all xs

module _ (fails : Call → Bool) (works : (c : Call) → fails c ≡ false) where
  call_all-works :
      {S : Type 0} (cs : List Call) (s : S) → call_all fails cs s ≡ (s, cs, returned tt)
  call_all-works [] s = refl
  call_all-works (c ∷ cs) s = rw (works c, call_all-works cs s) refl

  -- With the remote description there, each candidate goes at once.
  receive_all-described :
      (cs : List String) (s : Subscriber)
      → receive_all fails (map candidate cs) (record s { remote_description = true })
        ≡ (record s { remote_description = true }, map Call.add_ice_candidate cs, returned tt)
  unfolding receive_all receive add_ice_candidate
  receive_all-described [] s = refl
  receive_all-described (c ∷ cs) s =
      rw (works (Call.add_ice_candidate c), receive_all-described cs s) refl

  -- Without it they wait, in their order.
  receive_all-waiting :
      (cs : List String) (s : Subscriber)
      → receive_all fails (map candidate cs) (record s { remote_description = false }) ≡ (
        record s { candidates = s.candidates ++ cs; remote_description = false },
        [],
        returned tt,
      )
  unfolding receive_all receive add_ice_candidate
  receive_all-waiting [] s = rw (append-nil s.candidates) refl
  receive_all-waiting (c ∷ cs) s =
      rw
        (
          receive_all-waiting cs (record s { candidates = s.candidates ++ c ∷ [] }),
          append_assoc s.candidates (c ∷ []) cs,
        )
        refl

  pub describe :
      (s : Subscriber) (d : String)
      → set_remote_description fails d s ≡ (
        record s { candidates = []; remote_description = true },
        Call.set_remote_description d ∷ map Call.add_ice_candidate s.candidates,
        returned tt,
      )
  unfolding set_remote_description
  describe s d = simp (
    works (Call.set_remote_description d),
    call_all-works (map Call.add_ice_candidate s.candidates)
        (record s { remote_description = true }),
    append-nil (map Call.add_ice_candidate s.candidates),
  )

  -- Whatever candidates come before the remote description and after it, while the connection accepts all
  -- calls: the connection gets the description, and then each candidate once, in the order in which they
  -- came, those that had been waiting first; and none waits any more.
  pub receive_all-description :
      (s : Subscriber) (before after : List String) (d : String)
      → receive_all fails
          (map candidate before ++ description d ∷ map candidate after)
          (record s { remote_description = false })
        ≡ (
          record s { candidates = []; remote_description = true },
          Call.set_remote_description d
              ∷ map Call.add_ice_candidate (s.candidates ++ (before ++ after)),
          returned tt,
        )
  unfolding receive_all receive add_ice_candidate
  receive_all-description s [] after d =
      rw
        (
          describe (record s { remote_description = false }) d,
          receive_all-described after (record s { candidates = [] }),
          map-append Call.add_ice_candidate s.candidates after,
        )
        refl
  receive_all-description s (c ∷ cs) after d =
      rw
        (
          receive_all-description (record s { candidates = s.candidates ++ c ∷ [] }) cs after d,
          append_assoc s.candidates (c ∷ []) (cs ++ after),
        )
        refl
