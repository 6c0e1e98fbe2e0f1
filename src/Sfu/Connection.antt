-- ===== src/Sfu/Connection.antt =====
-- The peer connections of the webrtc crate, as rsfu/src/sfu calls them, and rsfu/src/sfu/errors.rs. What
-- a call of the crate answers is a parameter; which calls are made, and in what order, is in the result
-- of the code that makes them. `await` is the order of the steps.
use rsfu.Prelude.{ℕ, Bool, List, [], ◌∷◌, ◌++◌, String, if◌then◌else◌}

pub data Error : Type 0 where
  err_transport_exists err_no_transport_established err_offer_ignored err_web_rtc : Error
  err_no_subscriber err_data_channel_not_exists : Error

-- A data channel of the crate: which one it is, and its label.
pub record RtcDataChannel : Type 0 where
  pub number : ℕ
  pub label : String

-- Candidates and descriptions are texts. `on_offer` is the client's handler for an offer, `negotiate` the
-- request for one that a peer's subscriber passes on (Peer).
pub data Call : Type 0 where
  set_remote_description set_local_description add_ice_candidate create_data_channel : String → Call
  create_offer create_answer close remove_track add_transceiver register_codec on_offer : Call
  negotiate : Call
  send_text : RtcDataChannel → String → Call
  send : RtcDataChannel → List ℕ → Call

-- `panicked`: an `unwrap` of nothing.
pub data Answered {ℓ} (A : Type ℓ) : Type ℓ where
  returned : A → Answered A
  refused : Error → Answered A
  panicked : Answered A

-- What a piece of code comes to: the state, the calls that it makes, and its answer.
abbrev pub Run {ℓ κ} : Type ℓ → Type κ → Type (ℓ ⊔ κ)
Run S A = S × List Call × Answered A

abbrev pub Action {ℓ κ} : Type ℓ → Type κ → Type (ℓ ⊔ κ)
Action S A = S → Run S A

module _ {ℓ κ} {S : Type ℓ} {A : Type κ} where
  abbrev pub pure : A → Action S A
  pure a s = (s, [], returned a)

  abbrev pub raise : Error → Action S A
  raise e s = (s, [], refused e)

  abbrev pub after : List Call → Run S A → Run S A
  after cs (s, cs', r) = (s, cs ++ cs', r)

  abbrev pub gets : (S → A) → Action S A
  gets f s = (s, [], returned (f s))

module _ {ℓ κ ι} {S : Type ℓ} {A : Type κ} {B : Type ι} where
  abbrev pub continue : Run S A → (A → Action S B) → Run S B
  continue (s, cs, returned a) f = after cs (f a s)
  continue (s, cs, refused e) f = (s, cs, refused e)
  continue (s, cs, panicked) f = (s, cs, panicked)

  infixl 5 ◌>>=◌
  abbrev pub ◌>>=◌ : Action S A → (A → Action S B) → Action S B
  (m >>= f) s = continue (m s) f

  infixl 5 ◌>>◌
  abbrev pub ◌>>◌ : Action S A → Action S B → Action S B
  (m >> n) s = continue (m s) (λ _. n)

module _ {ℓ} {S : Type ℓ} where
  abbrev pub modify : (S → S) → Action S (Unit {0})
  modify f s = (f s, [], returned tt)

  -- A call whose result the code passes on with `?`.
  abbrev pub call : (Call → Bool) → Call → Action S (Unit {0})
  call fails c s = (s, c ∷ [], if fails c then refused err_web_rtc else returned tt)

  -- A call whose error is only logged.
  abbrev pub call_logged : Call → Action S (Unit {0})
  call_logged c s = (s, c ∷ [], returned tt)

  -- A loop with `?` on each call.
  abbrev pub call_all : (Call → Bool) → List Call → Action S (Unit {0})
  call_all fails [] = pure tt
  call_all fails (c ∷ cs) = call fails c >> call_all fails cs
