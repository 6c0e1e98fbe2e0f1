-- ===== src/Sfu/Peer/Negotiation.antt =====
-- The offers of a peer, over any course of its negotiation.
use rsfu.Prelude.{
  ℕ, ◌+◌, ◌≤◌, Bool, true, false, Option, none, some, List, [], ◌∷◌, ◌++◌, map, String, ◌≡◌, refl,
  ap, arith, Bool-cases, inl, inr,
}
use rsfu.Sfu.Subscriber
use rsfu.Sfu.Subscriber.{Subscriber}
use rsfu.Sfu.Subscriber.Candidates.{describe}
use rsfu.Sfu.Connection.{
  Call, on_offer, Answered, returned, refused, panicked, Run, Action, continue, call, call_all,
  pure,
}
use rsfu.Sfu.Peer.{
  PeerLocal, negotiate, on_negotiate, answered, set_remote_description, set_remote_by,
  with_subscriber,
}

-- What happens to a peer: something asks for a negotiation, an answer comes, or the peer is closed.
pub data Event : Type 0 where
  ask close : Event
  reply : String → Event

abbrev pub asked : (Call → Bool) → String → Option Subscriber → Action PeerLocal (Unit {0})
asked fails sdp none = pure tt
asked fails sdp (some s) = negotiate fails sdp s

abbrev pub act : (Call → Bool) → String → Event → Action PeerLocal (Unit {0})
act fails sdp ask p = asked fails sdp p.subscriber p
act fails sdp close p = (record p { closed = true }, [], returned tt)
act fails sdp (reply desc) p = set_remote_description fails sdp desc p

abbrev pub bit : Bool → ℕ
bit true = 1
bit false = 0

abbrev pub is_offer : Call → Bool
is_offer on_offer = true
is_offer _ = false

abbrev pub offers : List Call → ℕ
offers [] = 0
offers (c ∷ cs) = bit (is_offer c) + offers cs

-- Whether the subscriber takes the answer.
abbrev pub taken : {A : Type 0} → Answered A → ℕ
taken (returned _) = 1
taken (refused _) = 0
taken panicked = 0

abbrev pub takes : (Call → Bool) → Option Subscriber → String → ℕ
takes fails none desc = 0
takes fails (some s) desc = taken (Subscriber.set_remote_description fails desc s).2

abbrev pub accepted : (Call → Bool) → Event → PeerLocal → ℕ
accepted fails ask p = 0
accepted fails close p = 0
accepted fails (reply desc) p = takes fails p.subscriber desc

-- A course of events, each with what the crate refuses while it is dealt with: the peer after it, the
-- offers that went to the client, and the answers that were taken.
unfoldable pub course : String → List ((Call → Bool) × Event) → PeerLocal → PeerLocal × ℕ × ℕ
course sdp [] p = (p, 0, 0)
course sdp ((fails, e) ∷ es) p =
    let (p', cs, _) = act fails sdp e p in
    let (q, made, came) = course sdp es p' in (q, offers cs + made, accepted fails e p + came)

offers-append : (cs ds : List Call) → offers (cs ++ ds) ≡ offers cs + offers ds
offers-append [] ds = omega arith
offers-append (c ∷ cs) ds = omega (arith, offers-append cs ds)

call_all-offers :
    {S : Type 0} (fails : Call → Bool) (cs : List String) (s : S)
    → offers (call_all fails (map Call.add_ice_candidate cs) s).1 ≡ 0
call_all-offers fails [] s = refl
call_all-offers fails (c ∷ cs) s = elim (Bool-cases (fails (Call.add_ice_candidate c))) [
  | inl e ↦ rw e refl
  | inr e ↦ rw e (omega (arith, call_all-offers fails cs s))
]

-- What a step may do: make an offer when none is out, or when an answer has come.
Fair : ℕ → PeerLocal → Run PeerLocal (Unit {0}) → Type 0
Fair came p (p', cs, _) =
    offers cs + bit p.remote_answer_pending ≤ came + bit p'.remote_answer_pending

ask-Fair :
    (fails : Call → Bool) (sdp : String) (s : Subscriber) (p : PeerLocal)
    → Fair 0 p (negotiate fails sdp s p)
unfolding Fair negotiate on_negotiate
ask-Fair fails sdp s p = ground arith

answered-Fair :
    (fails : Call → Bool) (sdp : String) (s : Subscriber) (p : PeerLocal)
    → Fair 1 p (answered fails sdp s p)
unfolding Fair answered negotiate on_negotiate
answered-Fair fails sdp s p = ground arith

quiet :
    {S A B : Type 0} (r : Run S A) (f : A → Action S B)
    → offers r.1 ≡ 0
    → ((a : A) (s : S) → offers (f a s).1 ≡ 0)
    → offers (continue r f).1 ≡ 0
quiet (s, cs, returned a) f h hf = omega (arith, offers-append cs (f a s).1, h, hf a s)
quiet (s, cs, refused e) f h hf = h
quiet (s, cs, panicked) f h hf = h

set_remote_quiet :
    (fails : Call → Bool) (s : Subscriber) (desc : String)
    → offers (Subscriber.set_remote_description fails desc s).1 ≡ 0
unfolding Subscriber.set_remote_description
set_remote_quiet fails s desc =
    quiet (call fails (Call.set_remote_description desc) s) _ refl (λ _ s.
      quiet
        (call_all fails (map Call.add_ice_candidate s.candidates)
          (record s { remote_description = true }))
        _ (call_all-offers fails s.candidates (record s { remote_description = true }))
        (λ _ _. refl))

reply-Fair :
    (fails : Call → Bool) (sdp : String) (s : Subscriber) (p : PeerLocal)
    (r : Run Subscriber (Unit {0}))
    → offers r.1 ≡ 0
    → Fair (taken r.2) p (continue (with_subscriber p r) (λ _. answered fails sdp s))
unfolding Fair
reply-Fair fails sdp s p (s', cs, returned a) h =
    let p' : PeerLocal = record p { subscriber = some s' } in
    omega (arith, h, offers-append cs (answered fails sdp s p').1, answered-Fair fails sdp s p')
reply-Fair fails sdp s p (s', cs, refused e) h = omega (arith, h)
reply-Fair fails sdp s p (s', cs, panicked) h = omega (arith, h)

asked-Fair :
    (fails : Call → Bool) (sdp : String) (o : Option Subscriber) (p : PeerLocal)
    → Fair 0 p (asked fails sdp o p)
unfolding Fair
asked-Fair fails sdp none p = omega arith
asked-Fair fails sdp (some s) p = ask-Fair fails sdp s p

told-Fair :
    (fails : Call → Bool) (sdp desc : String) (o : Option Subscriber) (p : PeerLocal)
    → Fair (takes fails o desc) p (set_remote_by fails sdp desc o p)
unfolding Fair
told-Fair fails sdp desc none p = omega arith
told-Fair fails sdp desc (some s) p =
    reply-Fair fails sdp s p (Subscriber.set_remote_description fails desc s)
      (set_remote_quiet fails s desc)

act-Fair :
    (fails : Call → Bool) (sdp : String) (e : Event) (p : PeerLocal)
    → Fair (accepted fails e p) p (act fails sdp e p)
unfolding Fair set_remote_description
act-Fair fails sdp ask p = asked-Fair fails sdp p.subscriber p
act-Fair fails sdp close p = omega arith
act-Fair fails sdp (reply desc) p = told-Fair fails sdp desc p.subscriber p

course-Fair :
    (sdp : String) (es : List ((Call → Bool) × Event)) (p : PeerLocal)
    → (course sdp es p).1 + bit p.remote_answer_pending
      ≤ (course sdp es p).2 + bit (course sdp es p).0.remote_answer_pending
unfolding course Fair
course-Fair sdp [] p = omega arith
course-Fair sdp ((fails, e) ∷ es) p =
    let step : offers (act fails sdp e p).1 + bit p.remote_answer_pending
        ≤ accepted fails e p + bit (act fails sdp e p).0.remote_answer_pending =
      act-Fair fails sdp e p in
    omega (arith, course-Fair sdp es (act fails sdp e p).0, step)

bit_le : (b : Bool) → bit b ≤ 1
bit_le true = omega arith
bit_le false = omega arith

-- From a peer that waits for no answer, whatever requests for a negotiation and answers come, and
-- whatever calls of the crate fail at each: there is at most one offer to the client more than answers
-- that were taken.
pub course-offers :
    (sdp : String) (es : List ((Call → Bool) × Event)) (p : PeerLocal)
    → p.remote_answer_pending ≡ false
    → (course sdp es p).1 ≤ (course sdp es p).2 + 1
course-offers sdp es p h =
    let none_out : bit p.remote_answer_pending ≡ 0 = ap bit h in
    omega (arith, none_out, course-Fair sdp es p, bit_le (course sdp es p).0.remote_answer_pending)

-- A peer that is not closed, whose two handlers are set, and that waits for an answer.
abbrev pub waiting : PeerLocal → Subscriber → PeerLocal
waiting p s = record p {
  subscriber = some (record s { on_negotiate_handler = true });
  on_offer_handler = true;
  closed = false;
  remote_answer_pending = true;
}

-- While a peer waits for an answer, and the crate accepts all calls: a request for a negotiation makes no
-- call, and it is not lost. The answer, when it comes, is set, then the candidates that waited for it,
-- and then a new offer is made and goes to the client, of which the peer waits for the answer again.
pub ask-reply :
    (fails : Call → Bool) (works : (c : Call) → fails c ≡ false) (sdp desc : String) (p : PeerLocal)
    (s : Subscriber)
    → ((act fails sdp ask (waiting p s)).1 ≡ [])
      × (act fails sdp (reply desc) (act fails sdp ask (waiting p s)).0 ≡ (
        record (waiting p (record s { candidates = []; remote_description = true })) {
          negotiation_pending = false;
        },
        Call.set_remote_description desc ∷ map Call.add_ice_candidate s.candidates
            ++ Call.create_offer ∷ Call.set_local_description sdp ∷ on_offer ∷ [],
        returned tt,
      ))
unfolding negotiate on_negotiate set_remote_description answered
ask-reply fails works sdp desc p s = (
  refl,
  rw
      (
        describe fails works (record s { on_negotiate_handler = true }) desc,
        works Call.create_offer,
        works (Call.set_local_description sdp),
      )
      refl,
)
